-- ===== src/ProctorPage/Chosen.antt =====
-- Which examination of routes/_shell.proctor.tsx is shown.
use sensepro.Prelude.{
  String, ◌≡◌, refl, Bool, true, false, not, ◌||◌, Option, none, some, List, [], ◌∷◌, any, find?,
  is_some, Bool-cases, inl, inr, arith, eq_refl,
}
use sensepro.Http.{ok}
use sensepro.Proctor.{ExamSessionRow}
use sensepro.ProctorPage.{
  Page, Answers, truthy, is_listed, is_live, listed_sessions, default_session, load_end, or_first,
}

abbrev pub listed_if_some : List ExamSessionRow → Option ExamSessionRow → Bool
listed_if_some rows none = true
listed_if_some rows (some r) = is_listed r.id rows

abbrev pub is_empty : List ExamSessionRow → Bool
is_empty [] = true
is_empty (_ ∷ _) = false

-- Live if one of the rows is.
abbrev pub live_if_some : List ExamSessionRow → Option ExamSessionRow → Bool
live_if_some rows none = not (any is_live rows)
live_if_some rows (some r) = is_live r || not (any is_live rows)

found-tail :
    (r : ExamSessionRow) (found : Option ExamSessionRow) (rows : List ExamSessionRow)
    → is_live r ≡ false
    → (listed_if_some rows found ≡ true)
      × (live_if_some rows found ≡ true)
      × (is_some found ≡ any is_live rows)
    → (listed_if_some (r ∷ rows) found ≡ true)
      × (live_if_some (r ∷ rows) found ≡ true)
      × (is_some found ≡ any is_live rows)
found-tail r none rows over h = ground (arith, over, h)
found-tail r (some f) rows over h = ground (arith, over, h)

find-live :
    (rows : List ExamSessionRow)
    → (listed_if_some rows (find? is_live rows) ≡ true)
      × (live_if_some rows (find? is_live rows) ≡ true)
      × (is_some (find? is_live rows) ≡ any is_live rows)
find-live [] = (refl, refl, refl)
find-live (r ∷ rows) = elim (Bool-cases (is_live r)) [
  | inl live ↦ ground (arith, live, eq_refl r.id)
  | inr over ↦ rw over (found-tail r (find? is_live rows) rows over (find-live rows))
]

or_first-lem :
    (r : ExamSessionRow) (rows : List ExamSessionRow) (found : Option ExamSessionRow)
    → (listed_if_some (r ∷ rows) found ≡ true)
      × (live_if_some (r ∷ rows) found ≡ true)
      × (is_some found ≡ any is_live (r ∷ rows))
    → (listed_if_some (r ∷ rows) (or_first found (r ∷ rows)) ≡ true)
      × (live_if_some (r ∷ rows) (or_first found (r ∷ rows)) ≡ true)
      × (is_some (or_first found (r ∷ rows)) ≡ true)
or_first-lem r rows (some f) (l, h, e) = (l, h, refl)
or_first-lem r rows none (l, h, e) = ground (arith, eq_refl r.id, h, e)

default_session-lem :
    (rows : List ExamSessionRow)
    → (listed_if_some rows (default_session rows) ≡ true)
      × (live_if_some rows (default_session rows) ≡ true)
      × (is_some (default_session rows) ≡ not (is_empty rows))
unfolding default_session
default_session-lem [] = (refl, refl, refl)
default_session-lem (r ∷ rows) =
    or_first-lem r rows (find? is_live (r ∷ rows)) (find-live (r ∷ rows))

listed_found :
    (found : Option ExamSessionRow) (exams : List ExamSessionRow)
    → listed_if_some (listed_sessions found exams) found ≡ true
unfolding listed_sessions
listed_found none exams = refl
listed_found (some r) exams = ground (arith, eq_refl r.id)

-- After the page has loaded, the chosen examination is one of the listed ones, if there is one. For a requested
-- id it is the examination found for that id and no other, and the page says that it is missing exactly
-- where none was found. Without a requested id nothing is missing, some examination is chosen exactly where
-- any is listed, and it is a live one if any listed one is live.
pub load_end-session :
    (id : Option String) (a : Answers) (p : Page)
    → (listed_if_some (load_end id (ok a) p).sessions (load_end id (ok a) p).session ≡ true)
      × (truthy id ≡ true
          → ((load_end id (ok a) p).session ≡ a.found)
            × ((load_end id (ok a) p).requested_missing ≡ not (is_some a.found)))
      × (truthy id ≡ false
          → ((load_end id (ok a) p).requested_missing ≡ false)
            × (is_some (load_end id (ok a) p).session
                ≡ not (is_empty (load_end id (ok a) p).sessions))
            × (live_if_some (load_end id (ok a) p).sessions (load_end id (ok a) p).session ≡ true))
unfolding load_end
load_end-session id a p = elim (Bool-cases (truthy id)) [
  | inl asked ↦
      rw asked (listed_found a.found a.exams, λ _. (refl, refl), λ e. absurd (ground (arith, e)))
  | inr free ↦ rw free (
    (default_session-lem a.exams).0,
    λ e. absurd (ground (arith, e)),
    λ _. (refl, (default_session-lem a.exams).2, (default_session-lem a.exams).1),
  )
]
