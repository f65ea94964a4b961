-- ===== src/ProctorPage/Queue.antt =====
-- The queue of routes/_shell.proctor.tsx over any sequence of events.
use sensepro.Prelude.{
  String, ◌≡◌, refl, false, not, ◌&&◌, Option, some, List, [], ◌∷◌, map, filter, any, str_eq,
  is_some, Bool-cases, inl, inr, arith, eq_iff,
}
use sensepro.Prelude.Upsert.{contains}
use sensepro.Http.{Outcome, ok, err}
use sensepro.Proctor.{ProctorFlagRow, ReviewStatus, Failure, is_pending}
use sensepro.ProctorPage.{
  Page, Answers, View, load_end, queue_begin, queue_end, replace_first, on_flag, resolve_begin,
  resolve_end, judged, choose_session, load_begin, truthy,
}

abbrev pub ids_of : List ProctorFlagRow → List String
ids_of rows = map (λ f. f.id) rows

abbrev pub Unique : List String → Type 0
Unique [] = Unit
Unique (id ∷ ids) = (contains ids id ≡ false) × Unique ids

-- What can happen to the page.
pub data Event : Type 0 where
  page_opened : Event
  page_answered : Option String → Outcome Answers Failure → Event
  session_changed : Event
  queue_answered : Outcome (List ProctorFlagRow) Failure → Event
  flag_changed : ProctorFlagRow → Event
  selected_flag : String → Event
  viewed : View → Event
  session_chosen : String → Event
  resolve_started : String → Event
  resolve_ended : String → ReviewStatus → Option String → Outcome (Unit {0}) Failure → Event

unfoldable pub step : Event → Page → Page
unfolding load_begin load_end queue_begin queue_end on_flag resolve_begin resolve_end choose_session
step page_opened p = load_begin p
step (page_answered id reply) p = load_end id reply p
step session_changed p = queue_begin p
step (queue_answered reply) p = queue_end reply p
step (flag_changed row) p = on_flag row p
step (selected_flag id) p = record p { selected = some id }
step (viewed view) p = record p { view = view }
step (session_chosen id) p = choose_session id p
step (resolve_started id) p = resolve_begin id p
step (resolve_ended id verdict chosen reply) p = resolve_end id verdict chosen reply p

unfoldable pub run : List Event → Page → Page
run [] p = p
run (e ∷ es) p = run es (step e p)

-- The rows of an answer have pairwise different ids, as the backend's keys are.
abbrev pub IsKeyed : Event → Type 0
IsKeyed (queue_answered (ok rows)) = Unique (ids_of rows)
IsKeyed _ = Unit

abbrev pub AllKeyed : List Event → Type 0
AllKeyed [] = Unit
AllKeyed (e ∷ es) = IsKeyed e × AllKeyed es

ids-replace_first :
    (row : ProctorFlagRow) (rows : List ProctorFlagRow)
    → ids_of (replace_first row rows) ≡ ids_of rows
unfolding replace_first
ids-replace_first row [] = refl
ids-replace_first row (f ∷ fs) = ground (arith, ids-replace_first row fs, eq_iff f.id row.id)

contains-ids :
    (id : String) (rows : List ProctorFlagRow)
    → contains (ids_of rows) id ≡ any (λ f. str_eq f.id id) rows
contains-ids id [] = refl
contains-ids id (f ∷ fs) = ground (arith, contains-ids id fs)

ids-judged :
    (id : String) (verdict : ReviewStatus) (rows : List ProctorFlagRow)
    → ids_of (map (judged id verdict) rows) ≡ ids_of rows
ids-judged id verdict [] = refl
ids-judged id verdict (f ∷ fs) = ground (arith, ids-judged id verdict fs)

none_pending :
    (id : String) (verdict : ReviewStatus) (rows : List ProctorFlagRow)
    → is_pending verdict ≡ false
    → any (λ f. str_eq f.id id && is_pending f.review_status) (map (judged id verdict) rows) ≡ false
none_pending id verdict [] v = refl
none_pending id verdict (f ∷ fs) v = ground (arith, none_pending id verdict fs v, v)

others-judged :
    (id : String) (verdict : ReviewStatus) (rows : List ProctorFlagRow)
    → filter (λ f. not (str_eq f.id id)) (map (judged id verdict) rows)
      ≡ filter (λ f. not (str_eq f.id id)) rows
others-judged id verdict [] = refl
others-judged id verdict (f ∷ fs) = ground (arith, others-judged id verdict fs)

on_flag-Unique :
    (row : ProctorFlagRow) (p : Page)
    → Unique (ids_of p.flags)
    → Unique (ids_of (on_flag row p).flags)
unfolding on_flag
on_flag-Unique row p u = elim (Bool-cases (any (λ f. str_eq f.id row.id) p.flags)) [
  | inl known ↦ rw (known, ids-replace_first row p.flags) u
  | inr new ↦ rw new (rw (contains-ids row.id p.flags) new, u)
]

step-Unique :
    (e : Event) (p : Page) → IsKeyed e → Unique (ids_of p.flags) → Unique (ids_of (step e p).flags)
unfolding step queue_begin queue_end resolve_begin resolve_end load_begin load_end choose_session
step-Unique page_opened p k u = u
step-Unique (page_answered id (ok a)) p k u = u
step-Unique (page_answered id (err e)) p k u = u
step-Unique session_changed p k u = elim (Bool-cases (is_some p.session)) [
  | inl there ↦ rw there u
  | inr gone ↦ rw gone tt
]
step-Unique (queue_answered (ok rows)) p k u = k
step-Unique (queue_answered (err e)) p k u = u
step-Unique (flag_changed row) p k u = on_flag-Unique row p u
step-Unique (selected_flag id) p k u = u
step-Unique (viewed view) p k u = u
step-Unique (session_chosen id) p k u = u
step-Unique (resolve_started id) p k u = elim (Bool-cases (truthy p.busy_id)) [
  | inl busy ↦ rw busy u
  | inr free ↦ rw free u
]
step-Unique (resolve_ended id verdict chosen (ok r)) p k u = rw (ids-judged id verdict p.flags) u
step-Unique (resolve_ended id verdict chosen (err e)) p k u = u

-- Whatever happens to the page, in any order, no event stands in the queue twice, if none stood there twice
-- before and each answer of the backend has every id once: the channel's changes and the verdicts
-- included.
pub run-Unique :
    (es : List Event) (p : Page)
    → AllKeyed es
    → Unique (ids_of p.flags)
    → Unique (ids_of (run es p).flags)
unfolding run
run-Unique [] p k u = u
run-Unique (e ∷ es) p (k, ks) u = run-Unique es (step e p) ks (step-Unique e p k u)

-- A review that the backend has saved: with a verdict, no event of that id awaits a review, and all other
-- events and the order of the queue are as before.
pub resolve_end-judged :
    (id : String) (verdict : ReviewStatus) (chosen : Option String) (p : Page)
    → is_pending verdict ≡ false
    → (any
          (λ f. str_eq f.id id && is_pending f.review_status)
          (resolve_end id verdict chosen (ok tt) p).flags
        ≡ false)
      × (filter (λ f. not (str_eq f.id id)) (resolve_end id verdict chosen (ok tt) p).flags
          ≡ filter (λ f. not (str_eq f.id id)) p.flags)
      × (ids_of (resolve_end id verdict chosen (ok tt) p).flags ≡ ids_of p.flags)
unfolding resolve_end
resolve_end-judged id verdict chosen p v = (
  none_pending id verdict p.flags v,
  others-judged id verdict p.flags,
  ids-judged id verdict p.flags,
)
