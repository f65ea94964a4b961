-- ===== src/Capture/Roster/Laws.antt =====
-- What the session roster records: who is in view, when each student was first seen, and who is
-- marked present.
use sensepro.Prelude.{
  ℕ, ◌≡◌, refl, ap, sym, ◌∙◌, String, true, ◌||◌, Option, none, some, List, [], ◌∷◌, map, any,
  str_eq, eq_iff, arith, Option-cases, Bool-cases, inl, inr, is_some,
}
use sensepro.Prelude.Dict.{Dict, get, has, has-eq-is_some-get}
use sensepro.Prelude.Upsert.{
  contains, add_all, contains-add, contains-add_all, map_values, get-map_values, has-map_values,
  upsert_all, has-upsert_all, upsert_all-other, upsert_all-keeps, upsert_all-makes,
}
use sensepro.Capture.Types.{Via, qr, WsPresent, WsPresentRow, SessionRosterEntry, NameEntry}
use sensepro.Capture.Roster.{
  current_ids, set_live, exam_touch, update_exam_candidates, mark_touch, Marks,
  mark_student_present, present_rows, present_touch, drop_live, lecture_present, attended_touch,
  merge_attended,
}

-- The times and the identity of an entry.
abbrev pub origin : SessionRosterEntry → ℕ × String
origin e = (e.first_seen_ts, e.student_id)

-- The entry of `k` is still there, with the same first-seen time and the same student.
abbrev pub Kept : String → SessionRosterEntry → Dict SessionRosterEntry → Type 0
Kept k e roster = (w : SessionRosterEntry) × (get k roster ≡ some w) × (origin w ≡ origin e)

drop_live-origin :
    (live : List String) (k : String) (e : SessionRosterEntry)
    → origin (drop_live live k e) ≡ origin e
drop_live-origin live k e = elim (Bool-cases (contains live k)) [
  | inl inside ↦ rw inside
  | inr outside ↦ rw outside
]

module _ (names : Dict NameEntry) (now : ℕ) where
  exam_touch-origin :
      (id : String) (e : SessionRosterEntry) → origin (exam_touch names now id (some e)) ≡ origin e
  exam_touch-origin id e = elim (Option-cases (get id names)) [
    | inl unnamed ↦ rw unnamed
    | inr (info, named) ↦ rw named
  ]

  mark_touch-origin :
      (via : Via) (id : String) (e : SessionRosterEntry)
      → origin (mark_touch names now via id (some e)) ≡ origin e
  mark_touch-origin via id e = ground arith

  exam_touch-live :
      (id : String) (o : Option SessionRosterEntry) → (exam_touch names now id o).is_live ≡ true
  exam_touch-live id none = refl
  exam_touch-live id (some e) = elim (Option-cases (get id names)) [
    | inl unnamed ↦ rw unnamed
    | inr (info, named) ↦ rw named
  ]

  -- An entry of the roster after `updateExamCandidates` was there before or is of the frame,
  -- and it is live exactly if its student is in the frame.
  pub update_exam_candidates-live :
      (ids : List (Option String)) (roster : Dict SessionRosterEntry) (k : String)
      (e : SessionRosterEntry)
      → get k (update_exam_candidates names now ids roster) ≡ some e
      → (e.is_live ≡ contains (current_ids ids) k)
        × (has k roster || contains (current_ids ids) k ≡ true)
  unfolding update_exam_candidates
  update_exam_candidates-live ids roster k e h =
      let set_ids = add_all (current_ids ids) [] in
      let start = map_values (set_live set_ids) roster in
      let member : contains set_ids k ≡ contains (current_ids ids) k =
        contains-add_all k (current_ids ids) [] in
      let touch = exam_touch names now in
      let t : has k (upsert_all (λ id. id) touch set_ids start) ≡ true =
        has-eq-is_some-get k (upsert_all (λ id. id) touch set_ids start) ∙ ap is_some h in
      let there : has k roster || contains (current_ids ids) k ≡ true = ground (
        arith,
        t,
        has-upsert_all (λ id. id) touch k set_ids start,
        has-map_values (set_live set_ids) k roster,
        member,
      ) in
      elim (Bool-cases (contains set_ids k)) [
        | inl inside ↦
            let (w, found, live) =
              upsert_all-makes (λ id. id) touch (λ v. v.is_live ≡ true) exam_touch-live k set_ids
                start inside in
            (ground (arith, found, live, member), there)
        | inr outside ↦ (
          ground (
            arith,
            upsert_all-other (λ id. id) touch k set_ids start outside,
            get-map_values (set_live set_ids) k roster,
            member,
          ),
          there,
        )
      ]

  -- No change of the roster forgets a student or the first-seen time: not the candidates of an
  -- exam, not a check-in, not the present rows and not the attended set of a lecture.
  pub roster-Kept :
      (k : String) (e : SessionRosterEntry) (roster : Dict SessionRosterEntry)
      (ids : List (Option String)) (via : Via) (sid : String) (rest : Marks) (msg : List WsPresent)
      (seen : Dict ℕ) (attended_ids attended : List String)
      → get k roster ≡ some e
      → Kept k e (update_exam_candidates names now ids roster)
        × Kept k e (mark_student_present names now sid via (record rest { roster = roster })).roster
        × Kept k e (lecture_present names now msg seen roster).roster
        × Kept k e (merge_attended names now attended_ids attended roster).1
  unfolding update_exam_candidates mark_student_present lecture_present merge_attended
  roster-Kept k e roster ids via sid rest msg seen attended_ids attended h =
      let set_ids = add_all (current_ids ids) [] in
      let start = map_values (set_live set_ids) roster in
      let moved = record e { is_live = contains set_ids k } in
      let at_start : get k start ≡ some moved = get-map_values (set_live set_ids) k roster ∙ rw h in
      let rows = (present_rows names now seen msg).0 in
      let live = map (λ (r : WsPresentRow). r.student_id) rows in
      let (w, found, same) =
        upsert_all-keeps (λ r. r.student_id) (present_touch now) origin (λ r v. refl) k e rows
          roster h in
      (
        upsert_all-keeps (λ id. id) (exam_touch names now) origin exam_touch-origin k moved set_ids
            start at_start,
        upsert_all-keeps (λ id. id) (mark_touch names now via) origin (mark_touch-origin via) k e
            (sid ∷ []) roster h,
        (
          drop_live live k w,
          get-map_values (drop_live live) k
                (upsert_all (λ r. r.student_id) (present_touch now) rows roster)
              ∙ rw found,
          drop_live-origin live k w ∙ same,
        ),
        upsert_all-keeps (λ id. id) (attended_touch names now) origin (λ id v. refl) k e
            attended_ids roster h,
      )

  present_touch-live :
      (r : WsPresentRow) (o : Option SessionRosterEntry) → (present_touch now r o).is_live ≡ true
  present_touch-live r none = refl
  present_touch-live r (some e) = refl

  any-map :
      (k : String) (rows : List WsPresentRow)
      → contains (map (λ r. r.student_id) rows) k ≡ any (λ r. str_eq r.student_id k) rows
  any-map k [] = refl
  any-map k (r ∷ rows) = ground (arith, any-map k rows)

  -- After the present rows of a lecture frame an entry of the roster is live exactly if its student
  -- is among the rows.
  pub lecture_present-live :
      (msg : List WsPresent) (seen : Dict ℕ) (roster : Dict SessionRosterEntry) (k : String)
      (e : SessionRosterEntry)
      → get k (lecture_present names now msg seen roster).roster ≡ some e
      → e.is_live
        ≡ contains (map (λ r. r.student_id) (lecture_present names now msg seen roster).rows) k
  unfolding lecture_present
  lecture_present-live msg seen roster k e h =
      let rows = (present_rows names now seen msg).0 in
      let live = map (λ (r : WsPresentRow). r.student_id) rows in
      let up = upsert_all (λ r. r.student_id) (present_touch now) rows roster in
      elim (Bool-cases (contains live k)) [
        | inl inside ↦
            let (w, found, on) =
              upsert_all-makes (λ r. r.student_id) (present_touch now) (λ v. v.is_live ≡ true)
                present_touch-live k rows roster (sym (any-map k rows) ∙ inside) in
            ground (arith, get-map_values (drop_live live) k up, found, on)
        | inr outside ↦ ground (arith, get-map_values (drop_live live) k up, h)
      ]

  -- A check-in puts the student on the attended set and on the roster, and a QR check-in is recorded
  -- as such, also over an earlier sighting by the camera.
  pub mark_student_present_lem :
      (sid : String) (m : Marks)
      → let q = mark_student_present names now sid qr m in
        (contains q.attended sid ≡ true)
        × ((e : SessionRosterEntry) × (get sid q.roster ≡ some e) × (e.via ≡ some qr))
  unfolding mark_student_present
  mark_student_present_lem sid m = (
    ground (arith, contains-add sid sid m.attended, eq_iff sid sid),
    upsert_all-makes (λ id. id) (mark_touch names now qr) (λ v. v.via ≡ some qr) via_qr sid
        (sid ∷ []) m.roster (ground (arith, eq_iff sid sid)),
  )
    where
      via_qr :
          (id : String) (o : Option SessionRosterEntry)
          → (mark_touch names now qr id o).via ≡ some qr
      via_qr id none = refl
      via_qr id (some e) = refl

  -- Merging the attended set of a message adds exactly its ids, and each of them is on the roster.
  pub merge_attended_lem :
      (ids attended : List String) (roster : Dict SessionRosterEntry) (k : String)
      → let (set', roster') = merge_attended names now ids attended roster in
        (contains set' k ≡ (contains attended k || contains ids k))
        × (has k roster' ≡ (has k roster || contains ids k))
  unfolding merge_attended
  merge_attended_lem ids attended roster k = (
    contains-add_all k ids attended,
    has-upsert_all (λ id. id) (attended_touch names now) k ids roster,
  )
