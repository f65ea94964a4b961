-- ===== src/Management.antt =====
-- routes/_shell.management.tsx: the snapshot of the management page, which is refreshed as a whole, and
-- the two sessions that it compares. The queries' outcomes and the clock are arguments.
mod Tests
pub mod Runs
use sensepro.Prelude.{
  ℕ, ◌≡◌, ◌≢◌, refl, ◌⊎◌, inl, inr, String, Bool, true, false, not, ◌&&◌, ◌||◌, Option, none, some,
  List, [], ◌∷◌, map, any, find?, str_eq, eq_iff, eq_refl, if◌then◌else◌, get_or_default, arith,
  Bool-cases, is_some,
}
use sensepro.Prelude.Upsert.{contains}
use sensepro.Http.{Outcome, ok, err}

pub data Load : Type 0 where
  loading ready error : Load

-- The two sessions of the comparison, by id; the empty text where there is none.
pub record Comparison : Type 0 where
  pub a : String
  pub b : String

-- The state of `ManagementPage`; `S`, `R` and `M` are the active session, its rows and the recent sessions.
pub record Page {ℓ} (S R M : Type ℓ) : Type ℓ where
  pub load : Load
  pub session : Option S
  pub rows : List R
  pub sessions : List M
  pub updated_at : ℕ
  pub comparison : Comparison
  pub in_flight : Bool
  pub mounted : Bool

-- `ids.find((id) => id !== a) ?? ""`.
unfoldable pub first_other : String → List String → String
first_other a ids = get_or_default (find? (λ id. not (str_eq id a)) ids) ""

abbrev pub head_or_empty : List String → String
head_or_empty [] = ""
head_or_empty (id ∷ _) = id

-- The comparison after a refresh: a choice is kept while its session is listed.
unfoldable pub kept_comparison : List String → Comparison → Comparison
unfolding first_other
kept_comparison ids previous =
    let a = if contains ids previous.a then previous.a else head_or_empty ids in
    record {
      a = a;
      b =
          if contains ids previous.b && not (str_eq previous.b a)
          then previous.b
          else first_other a ids;
    }

-- `chooseSession`.
pub data Side : Type 0 where
  left right : Side

unfoldable pub choose_session : List String → Side → String → Comparison → Comparison
unfolding first_other
choose_session ids left value previous = record {
  a = value;
  b = if str_eq previous.b value then first_other value ids else previous.b;
}
choose_session ids right value previous = record {
  a = if str_eq previous.a value then first_other value ids else previous.a;
  b = value;
}

module _ {ℓ} {S R M : Type ℓ} (id_of : M → String) where
  -- `refresh` before its queries, when it does not return at once.
  unfoldable pub refresh_begin : Page S R M → Option (Page S R M)
  refresh_begin p = if p.in_flight then none else some (record p { in_flight = true })

  -- `refresh` once its queries have come back: the active session with its rows and the recent sessions, or
  -- the error of one of them.
  unfoldable pub refresh_end :
      ℕ → Outcome (Option S × List R × List M) String → Page S R M → Page S R M
  unfolding kept_comparison
  refresh_end now (ok (session, rows, sessions)) p =
      if p.mounted
      then record p {
        session = session;
        rows = rows;
        sessions = sessions;
        updated_at = now;
        comparison = kept_comparison (map id_of sessions) p.comparison;
        load = ready;
        in_flight = false;
      }
      else record p { in_flight = false }
  refresh_end now (err e) p =
      if p.mounted
      then record p { load = error; in_flight = false }
      else record p { in_flight = false }

  unfoldable pub choose : Side → String → Page S R M → Page S R M
  unfolding choose_session
  choose side value p = record p {
    comparison = choose_session (map id_of p.sessions) side value p.comparison;
  }

-- Each side names a listed session or is empty, and the sides differ unless both are empty.
abbrev pub IsComparison : List String → Comparison → Type 0
IsComparison ids c =
    ((contains ids c.a ≡ true) ⊎ (c.a ≡ ""))
    × ((contains ids c.b ≡ true) ⊎ (c.b ≡ ""))
    × ((c.a ≢ c.b) ⊎ ((c.a ≡ "") × (c.b ≡ "")))

first_other-cases :
    (a : String) (ids : List String)
    → ((contains ids (first_other a ids) ≡ true) × (str_eq (first_other a ids) a ≡ false))
      ⊎ (first_other a ids ≡ "")
unfolding first_other
first_other-cases a [] = inr refl
first_other-cases a (id ∷ ids) = ground (arith, first_other-cases a ids, eq_refl id)

head_or_empty-cases :
    (ids : List String)
    → (contains ids (head_or_empty ids) ≡ true) ⊎ ((head_or_empty ids ≡ "") × (ids ≡ []))
head_or_empty-cases [] = inr (refl, refl)
head_or_empty-cases (id ∷ ids) = inl (rw (eq_refl id))

-- A session's id is not empty.
listed-not_empty :
    (ids : List String) (id : String) → contains ids "" ≡ false → contains ids id ≡ true → id ≢ ""
listed-not_empty ids id n h e = absurd (ground (arith, rw e at h))

-- The second session, for a first one that is listed, or empty where none is.
abbrev completed : List String → String → String → Comparison
completed ids a b = record {
  a = a;
  b = if contains ids b && not (str_eq b a) then b else first_other a ids;
}

completed-IsComparison :
    (ids : List String) (a b : String)
    → contains ids "" ≡ false
    → (contains ids a ≡ true) ⊎ ((a ≡ "") × (ids ≡ []))
    → IsComparison ids (completed ids a b)
unfolding first_other
completed-IsComparison [] a b n (inl h) = absurd (ground (arith, h))
completed-IsComparison [] a b n (inr (e, _)) = (inr e, inr refl, inr (e, refl))
completed-IsComparison (id ∷ ids) a b n (inr (_, e)) = absurd (ground (arith, e))
completed-IsComparison (id ∷ ids) a b n (inl h) = ground (
  arith,
  first_other-cases a (id ∷ ids),
  eq_iff b a,
  eq_iff (first_other a (id ∷ ids)) a,
  listed-not_empty (id ∷ ids) a n h,
  n,
  h,
)

-- After a refresh of sessions with ids, each side of the comparison names a listed session or is empty, and
-- the sides differ unless both are empty, whatever was compared before.
pub kept_comparison-IsComparison :
    (ids : List String) (previous : Comparison)
    → contains ids "" ≡ false
    → IsComparison ids (kept_comparison ids previous)
unfolding kept_comparison
kept_comparison-IsComparison ids previous n = elim (Bool-cases (contains ids previous.a)) [
  | inl h ↦ rw h (completed-IsComparison ids previous.a previous.b n (inl h))
  | inr h ↦
      rw h (completed-IsComparison ids (head_or_empty ids) previous.b n (head_or_empty-cases ids))
]

-- Choosing a listed session for either side keeps that: each side names a listed session or is empty, and
-- the sides differ unless both are empty.
pub choose_session-IsComparison :
    (ids : List String) (side : Side) (value : String) (previous : Comparison)
    → contains ids "" ≡ false
    → contains ids value ≡ true
    → IsComparison ids previous
    → IsComparison ids (choose_session ids side value previous)
unfolding choose_session
choose_session-IsComparison ids left value previous n h c = ground (
  arith,
  first_other-cases value ids,
  eq_iff previous.b value,
  eq_iff (first_other value ids) value,
  eq_iff value "",
  listed-not_empty ids value n h,
  n,
  h,
  c,
)
choose_session-IsComparison ids right value previous n h c = ground (
  arith,
  first_other-cases value ids,
  eq_iff previous.a value,
  eq_iff (first_other value ids) value,
  eq_iff value "",
  listed-not_empty ids value n h,
  n,
  h,
  c,
)
