-- ===== src/Management/Runs.antt =====
-- The comparison of the management page over refreshes and choices.
use sensepro.Prelude.{
  ℕ, String, ◌≡◌, refl, inl, inr, true, false, Option, some, List, [], map, arith, Bool-cases, Bool,
}
use sensepro.Prelude.Upsert.{contains}
use sensepro.Http.{Outcome, ok, err}
use sensepro.Management.{
  Page, Side, refresh_begin, refresh_end, choose, IsComparison, kept_comparison-IsComparison,
  choose_session-IsComparison,
}

module _ {S R M : Type 0} (id_of : M → String) where
  abbrev pub ids_of : Page S R M → List String
  ids_of p = map id_of p.sessions

  -- No session of a reply has the empty id.
  abbrev pub HasIds : Outcome (Option S × List R × List M) String → Type 0
  HasIds (ok (session, rows, sessions)) = contains (map id_of sessions) "" ≡ false
  HasIds (err e) = Unit

  -- A refresh begins or ends, a listed session is chosen for a side, or the page is unmounted or mounted.
  pub data Step (p : Page S R M) : Page S R M → Type 0 where
    begins : {q : Page S R M} → refresh_begin id_of p ≡ some q → Step p q
    ends :
        (now : ℕ) (reply : Outcome (Option S × List R × List M) String)
        → p.in_flight ≡ true
        → HasIds reply
        → Step p (refresh_end id_of now reply p)
    chooses :
        (side : Side) (value : String)
        → contains (ids_of p) value ≡ true
        → Step p (choose id_of side value p)
    mounts : (b : Bool) → Step p (record p { mounted = b })

  -- From a page without sessions.
  pub data Reach : Page S R M → Type 0 where
    start :
        (p : Page S R M)
        → Reach (record p { sessions = []; comparison = record { a = ""; b = "" } })
    later : {p q : Page S R M} → Reach p → Step p q → Reach q

  abbrev pub Inv : Page S R M → Type 0
  Inv p = (contains (ids_of p) "" ≡ false) × IsComparison (ids_of p) p.comparison

  Step-Inv : {p q : Page S R M} → Step p q → Inv p → Inv q
  unfolding refresh_begin refresh_end choose
  Step-Inv {p} (begins e) h = ground arith
  Step-Inv {p} (ends now (ok (session, rows, sessions)) f k) h = elim (Bool-cases p.mounted) [
    | inl there ↦ rw there (k, kept_comparison-IsComparison (map id_of sessions) p.comparison k)
    | inr gone ↦ rw gone h
  ]
  Step-Inv {p} (ends now (err e) f k) h = elim (Bool-cases p.mounted) [
    | inl there ↦ rw there h
    | inr gone ↦ rw gone h
  ]
  Step-Inv {p} (chooses side value l) (n, c) =
      (n, choose_session-IsComparison (ids_of p) side value p.comparison n l c)
  Step-Inv {p} (mounts b) h = h

  -- However refreshes, their failures and choices of listed sessions follow each other, each side of the
  -- comparison names a session that is listed or is empty, and the sides differ unless both are empty. No
  -- listed session has the empty id.
  pub Reach-IsComparison :
      {p : Page S R M}
      → Reach p
      → (contains (ids_of p) "" ≡ false) × IsComparison (ids_of p) p.comparison
  Reach-IsComparison (start p) = (refl, (inr refl, inr refl, inr (refl, refl)))
  Reach-IsComparison (later r st) = Step-Inv st (Reach-IsComparison r)
