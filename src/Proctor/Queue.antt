-- ===== src/Proctor/Queue.antt =====
-- The queue over any sequence of events.
use sensepro.Prelude.{
  ℕ, ◌≡◌, refl, String, Option, none, some, List, [], ◌∷◌, filter, arith, str_eq, not, ◌&&◌,
  Bool-cases, inl, inr, eq_iff, is_some,
}
use sensepro.Http.{Outcome, ok, err}
use sensepro.Proctor.{
  ProctorFlagRow, ReviewStatus, Panel, loaded, on_change, review_begin, review_end, PanelEvent,
  opened, answered, changed, channel, review_started, review_ended, panel_step, panel_run,
  open_queue, for_session,
}
use sensepro.Proctor.Merge.{
  NewestFirst, DistinctFlags, merge_flags-NewestFirst, flag_of, flag_of-merge_flags,
}

abbrev pub Ordered : (String → ℕ) → Panel → Type 0
Ordered parse p = NewestFirst parse p.flags × DistinctFlags p.flags

loaded-Ordered :
    (parse : String → ℕ) (id : String) (reply : Outcome (List ProctorFlagRow) _) (p : Panel)
    → Ordered parse (loaded parse id reply p)
unfolding loaded
loaded-Ordered parse id (ok found) p =
    merge_flags-NewestFirst parse found (filter (λ r. str_eq r.session_id id) p.flags)
loaded-Ordered parse id (err e) p = (tt, tt)

on_change-Ordered :
    (parse : String → ℕ) (id : String) (row : ProctorFlagRow) (p : Panel)
    → Ordered parse p
    → Ordered parse (on_change parse id row p)
unfolding on_change
on_change-Ordered parse id row p h =
    elim (Bool-cases (not (str_eq row.id "") && not row.suppressed && str_eq row.session_id id)) [
      | inl taken ↦ rw taken (merge_flags-NewestFirst parse p.flags (row ∷ []))
      | inr left ↦ rw left h
    ]

review_begin-Ordered :
    (parse : String → ℕ) (flag : ProctorFlagRow) (p : Panel)
    → Ordered parse p
    → Ordered parse (review_begin flag p)
unfolding review_begin
review_begin-Ordered parse flag p h = elim (Bool-cases (is_some p.busy)) [
  | inl busy ↦ rw busy h
  | inr free ↦ elim (Bool-cases (is_some p.session_id)) [
    | inl there ↦ rw (free, there) h
    | inr gone ↦ rw (free, gone) h
  ]
]

for_session-Ordered :
    (p : Panel) (parse : String → ℕ) (f : String → Panel → Panel)
    → ((id : String) → Ordered parse (f id p))
    → (session : Option String) → Ordered parse p
    → Ordered parse (for_session f session p)
for_session-Ordered p parse f each none h = h
for_session-Ordered p parse f each (some id) h = each id

panel_step-Ordered :
    (parse : String → ℕ) (e : PanelEvent) (p : Panel)
    → Ordered parse p
    → Ordered parse (panel_step parse e p)
unfolding panel_step open_queue review_end
panel_step-Ordered parse (opened none) p h = (tt, tt)
panel_step-Ordered parse (opened (some id)) p h = (tt, tt)
panel_step-Ordered parse (answered reply) p h =
    for_session-Ordered p parse (λ id. loaded parse id reply)
      (λ id. loaded-Ordered parse id reply p) p.session_id h
panel_step-Ordered parse (changed row) p h =
    for_session-Ordered p parse (λ id. on_change parse id row)
      (λ id. on_change-Ordered parse id row p h) p.session_id h
panel_step-Ordered parse (channel live) p h = h
panel_step-Ordered parse (review_started flag) p h = review_begin-Ordered parse flag p h
panel_step-Ordered parse (review_ended flag status (ok _)) p h =
    merge_flags-NewestFirst parse p.flags (record flag { review_status = status } ∷ [])
panel_step-Ordered parse (review_ended flag status (err e)) p h = h

-- Whatever happens to the panel, in whatever order, its queue shows the newest events first and no id
-- twice, if it did so at the start.
pub panel_run-Ordered :
    (parse : String → ℕ) (es : List PanelEvent) (p : Panel)
    → Ordered parse p
    → Ordered parse (panel_run parse es p)
unfolding panel_run
panel_run-Ordered parse [] p h = h
panel_run-Ordered parse (e ∷ es) p h =
    panel_run-Ordered parse es (panel_step parse e p) (panel_step-Ordered parse e p h)

-- A review that is saved after the examination was changed puts its flag on the queue of the new
-- examination, whichever examination the flag is of.
pub panel_run-stale_review :
    (parse : String → ℕ) (flag : ProctorFlagRow) (status : ReviewStatus) (id : String) (p : Panel)
    → let after =
        panel_run parse
          (review_started flag ∷ opened (some id) ∷ review_ended flag status (ok tt) ∷ [])
          p in
      (after.session_id ≡ some id)
      × (flag_of flag.id after.flags ≡ some (record flag { review_status = status }))
unfolding panel_run panel_step open_queue review_end
panel_run-stale_review parse flag status id p = (
  refl,
  ground (
    arith,
    eq_iff flag.id flag.id,
    flag_of-merge_flags parse [] (record flag { review_status = status } ∷ []) flag.id,
  ),
)
