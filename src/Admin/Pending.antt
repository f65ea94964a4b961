-- ===== src/Admin/Pending.antt =====
-- The number of pending role requests that the admin page shows, and the pending ones in its list.
use sensepro.Prelude.{
  ℕ, suc, ◌+◌, ◌≡◌, refl, String, Bool, true, false, ◌&&◌, Option, List, [], ◌∷◌, map, length,
  filter, any, str_eq, eq_iff, arith, Bool-cases, inl, inr,
}
use sensepro.Http.{Outcome, ok, err}
use sensepro.Admin.{
  Page, Fetched, load_end, take_status, assign, resolve_role_begin, resolve_role_end, no_requests,
  or_caught,
}
use sensepro.Admin.Requests.{Failure, pending, RoleRequestRow, RoleQueue}

abbrev pub is_pending : RoleRequestRow → Bool
is_pending r = elim r.status [ pending ↦ true | _ ↦ false ]

abbrev pub has_id : String → RoleRequestRow → Bool
has_id id r = str_eq r.id id

-- No two requests have one id.
abbrev pub Distinct : List RoleRequestRow → Type 0
Distinct [] = Unit
Distinct (r ∷ rs) = (any (has_id r.id) rs ≡ false) × Distinct rs

abbrev pub count : List RoleRequestRow → ℕ
count rs = length (filter is_pending rs)

-- An answer of the backend lists the newest requests of every status, and counts all pending ones: this
-- many of them are left out of the list.
abbrev pub IsCounted : List RoleRequestRow → ℕ → ℕ → Type 0
IsCounted items pending_count left_out = (pending_count ≡ count items + left_out) × Distinct items

module _ (id : String) (approve : Bool) (role : Option String) where
  any-assign :
      (j : String) (rs : List RoleRequestRow)
      → any (has_id j) (map (assign id approve role) rs) ≡ any (has_id j) rs
  unfolding assign
  any-assign j [] = refl
  any-assign j (r ∷ rs) = ground (arith, any-assign j rs)

  Distinct-assign :
      (rs : List RoleRequestRow) → Distinct rs → Distinct (map (assign id approve role) rs)
  unfolding assign
  Distinct-assign [] d = tt
  Distinct-assign (r ∷ rs) (n, d) = ground (arith, any-assign r.id rs, Distinct-assign rs d)

  count-other :
      (rs : List RoleRequestRow)
      → any (has_id id) rs ≡ false
      → count (map (assign id approve role) rs) ≡ count rs
  unfolding assign
  count-other [] h = refl
  count-other (r ∷ rs) h = ground (arith, count-other rs)

  none_pending :
      (rs : List RoleRequestRow)
      → any (has_id id) rs ≡ false
      → any (λ r. has_id id r && is_pending r) rs ≡ false
  none_pending [] h = refl
  none_pending (r ∷ rs) h = ground (arith, none_pending rs)

  count-assign :
      (rs : List RoleRequestRow)
      → Distinct rs
      → any (λ r. has_id id r && is_pending r) rs ≡ true
      → suc (count (map (assign id approve role) rs)) ≡ count rs
  unfolding assign
  count-assign [] d h = cc
  count-assign (r ∷ rs) (n, d) h = elim (Bool-cases (str_eq r.id id)) [
    | inl same ↦
        let e : r.id ≡ id = (eq_iff r.id id).0 same in
        let other : any (has_id id) rs ≡ false = rw (← e) n in
        ground (arith, count-other rs other, none_pending rs other)
    | inr other ↦ ground (arith, count-assign rs d)
  ]

-- The page, and the pending requests that the last answer has left out.
pub record System : Type 0 where
  pub page : Page
  pub left_out : ℕ

-- What happens to the role requests of the page. The buttons of a row are there while it is
-- pending; an answer after a failure brings a new list with its own count.
pub data Step (s : System) : System → Type 0 where
  resolves :
      (id : String) (approve : Bool) (role : Option String)
      → any (λ r. has_id id r && is_pending r) s.page.role_requests ≡ true
      → Step s (record s { page = resolve_role_begin id approve role s.page })
  resolved :
      (r : RoleRequestRow) (again : Outcome RoleQueue Failure)
      → Step s (record s { page = resolve_role_end (ok r) again s.page })
  failed :
      (e : Failure) (q : RoleQueue) (left_out : ℕ)
      → IsCounted q.items q.pending_count left_out
      → Step s (record { page = resolve_role_end (err e) (ok q) s.page; left_out = left_out })
  unanswered :
      (e f : Failure) → Step s (record s { page = resolve_role_end (err e) (err f) s.page })

pub data Reach : System → Type 0 where
  start :
      (f : Fetched) (p : Page) (left_out : ℕ)
      → (let q : RoleQueue = or_caught f.roles no_requests in
          IsCounted q.items q.pending_count left_out)
      → Reach (record { page = load_end f p; left_out = left_out })
  later : {r s : System} → Reach r → Step r s → Reach s

abbrev pub Counted : System → Type 0
Counted s = IsCounted s.page.role_requests s.page.pending_role_count s.left_out

Step-Counted : {r s : System} → Step r s → Counted r → Counted s
unfolding resolve_role_begin resolve_role_end
Step-Counted {r} (resolves id approve role h) (c, d) = (
  omega (arith, count-assign id approve role r.page.role_requests d h),
  Distinct-assign id approve role r.page.role_requests d,
)
Step-Counted {r} (resolved row again) c = c
Step-Counted {r} (failed e q left_out h) c = h
Step-Counted {r} (unanswered e f) c = c

load_end-roles :
    (f : Fetched) (p : Page)
    → let q : RoleQueue = or_caught f.roles no_requests in
      ((load_end f p).role_requests ≡ q.items)
      × ((load_end f p).pending_role_count ≡ q.pending_count)
unfolding load_end take_status
load_end-roles f p = ground arith

-- However approvals, rejections, failures and new fetches interleave, the number of pending requests that
-- the page shows is the number of pending requests in its list and of those that the last answer left
-- out of it, and no two requests of the list have one id: a decision takes one from both numbers.
-- An answer lists no id twice and counts every pending request that it lists.
pub Reach-Counted : {s : System} → Reach s → Counted s
Reach-Counted (start f p left_out h) = ground (arith, load_end-roles f p)
Reach-Counted (later r st) = Step-Counted st (Reach-Counted r)
