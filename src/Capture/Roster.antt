-- ===== src/Capture/Roster.antt =====
-- apps/web/src/routes/capture.tsx: the session roster (`sessionRosterRef`), the attended set and the
-- toasts, as `updateExamCandidates`, `markStudentPresent` and the lecture part of `handleWsMessage`
-- change them. `setSessionRoster(Array.from(rosterMap.values()))` publishes the map's values after
-- each change and is left out; `now` is the time of the call.
pub mod Laws
use sensepro.Prelude.{
  ℕ, String, Bool, true, false, Option, none, some, List, [], ◌∷◌, map, if◌then◌else◌, str_eq,
  get_or_default,
}
use sensepro.Prelude.Dict.{Dict, get, has, set}
use sensepro.Prelude.Upsert.{contains, add, add_all, map_values, upsert_all}
use sensepro.Capture.Types.{
  Via, camera, qr, WsPresent, bare, full, WsPresentRow, SessionRosterEntry, NameEntry, Toast,
  verified_via_qr,
}

abbrev pub name_or : Option NameEntry → String → String
name_or none d = d
name_or (some info) d = info.name

abbrev reg_no_or : Option NameEntry → String → String
reg_no_or none d = d
reg_no_or (some info) d = info.reg_no

-- `new Set(ids.filter((id) => typeof id === "string" && id.length > 0))`.
unfoldable pub current_ids : List (Option String) → List String
current_ids [] = []
current_ids (none ∷ ids) = current_ids ids
current_ids (some id ∷ ids) = if str_eq id "" then current_ids ids else id ∷ current_ids ids

abbrev pub set_live : List String → String → SessionRosterEntry → SessionRosterEntry
set_live ids id entry = record entry { is_live = contains ids id }

abbrev named : Option NameEntry → SessionRosterEntry → SessionRosterEntry
named none entry = entry
named (some info) entry = record entry { name = info.name; reg_no = info.reg_no }

-- One round of the second loop of `updateExamCandidates`.
abbrev pub exam_touch : Dict NameEntry → ℕ → String → Option SessionRosterEntry → SessionRosterEntry
exam_touch names now id none = record {
  student_id = id;
  name = name_or (get id names) id;
  reg_no = reg_no_or (get id names) id;
  first_seen_ts = now;
  last_seen_ts = now;
  is_live = true;
  via = none;
}
exam_touch names now id (some entry) =
    named (get id names) (record entry { last_seen_ts = now; is_live = true })

unfoldable pub update_exam_candidates :
    Dict NameEntry → ℕ → List (Option String) → Dict SessionRosterEntry → Dict SessionRosterEntry
unfolding current_ids
update_exam_candidates names now student_ids roster =
    let ids = add_all (current_ids student_ids) [] in
    upsert_all (λ id. id) (exam_touch names now) ids (map_values (set_live ids) roster)

-- A student who is on record but not in view.
abbrev unseen : Dict NameEntry → ℕ → String → Via → SessionRosterEntry
unseen names now id via = record {
  student_id = id;
  name = name_or (get id names) id;
  reg_no = reg_no_or (get id names) id;
  first_seen_ts = now;
  last_seen_ts = now;
  is_live = false;
  via = some via;
}

abbrev is_qr : Via → Bool
is_qr qr = true
is_qr _ = false

-- The update of `markStudentPresent`: of an existing entry only a QR check-in changes anything.
abbrev pub mark_touch :
    Dict NameEntry → ℕ → Via → String → Option SessionRosterEntry → SessionRosterEntry
mark_touch names now via id none = unseen names now id via
mark_touch names now via id (some entry) =
    if is_qr via then record entry { via = some qr } else entry

pub record Marks : Type 0 where
  pub attended : List String
  pub roster : Dict SessionRosterEntry
  pub toasts : List Toast

-- `pushToast`: the last three toasts and the new one; the timer that drops it is left out.
unfoldable pub push_toast : List Toast → Toast → List Toast
push_toast [] text = text ∷ []
push_toast (a ∷ []) text = a ∷ text ∷ []
push_toast (a ∷ b ∷ []) text = a ∷ b ∷ text ∷ []
push_toast (a ∷ b ∷ c ∷ []) text = a ∷ b ∷ c ∷ text ∷ []
push_toast (a ∷ b ∷ c ∷ d ∷ rest) text = push_toast (b ∷ c ∷ d ∷ rest) text

unfoldable pub mark_student_present : Dict NameEntry → ℕ → String → Via → Marks → Marks
unfolding push_toast
mark_student_present names now sid via m = record {
  attended = add sid m.attended;
  roster = upsert_all (λ id. id) (mark_touch names now via) (sid ∷ []) m.roster;
  toasts =
      if is_qr via
      then push_toast m.toasts (verified_via_qr (name_or (get sid names) sid))
      else m.toasts;
}

-- One element of `present`, normalised; `firstSeenRef` keeps the first time of a bare id.
abbrev pub see : ℕ → Dict ℕ → WsPresent → Dict ℕ
see now seen (full row) = seen
see now seen (bare id) = if has id seen then seen else set id now seen

abbrev present_row : Dict NameEntry → ℕ → Dict ℕ → WsPresent → WsPresentRow
present_row names now seen (full row) = row
present_row names now seen (bare id) = record {
  student_id = id;
  name = name_or (get id names) id;
  reg_no = reg_no_or (get id names) id;
  first_seen_ts = get_or_default (get id seen) now;
}

-- `msg.present.map(…)`, with the rows and the first-seen times that it leaves.
unfoldable pub present_rows :
    Dict NameEntry → ℕ → Dict ℕ → List WsPresent → List WsPresentRow × Dict ℕ
present_rows names now seen [] = ([], seen)
present_rows names now seen (p ∷ ps) =
    let seen' = see now seen p in
    let (rows, last) = present_rows names now seen' ps in
    (present_row names now seen' p ∷ rows, last)

-- The ids that are no longer present are forgotten.
unfoldable pub forget : List String → Dict ℕ → Dict ℕ
forget live [] = []
forget live ((id, ts) ∷ seen) =
    if contains live id then (id, ts) ∷ forget live seen else forget live seen

abbrev better : String → String → String → String
better new id old = if str_eq new "" then old else if str_eq new id then old else new

-- One round of the loop over the present rows.
abbrev pub present_touch : ℕ → WsPresentRow → Option SessionRosterEntry → SessionRosterEntry
present_touch now row none = record {
  student_id = row.student_id;
  name = row.name;
  reg_no = row.reg_no;
  first_seen_ts = row.first_seen_ts;
  last_seen_ts = now;
  is_live = true;
  via = none;
}
present_touch now row (some entry) = record entry {
  last_seen_ts = now;
  is_live = true;
  name = better row.name row.student_id entry.name;
  reg_no = better row.reg_no row.student_id entry.reg_no;
}

-- The loop after it: whoever is not in the frame is not live.
abbrev pub drop_live : List String → String → SessionRosterEntry → SessionRosterEntry
drop_live live id entry = if contains live id then entry else record entry { is_live = false }

pub record Presence : Type 0 where
  pub rows : List WsPresentRow
  pub first_seen : Dict ℕ
  pub roster : Dict SessionRosterEntry

-- The lecture branch on `msg.present`.
unfoldable pub lecture_present :
    Dict NameEntry → ℕ → List WsPresent → Dict ℕ → Dict SessionRosterEntry → Presence
unfolding present_rows forget
lecture_present names now msg first_seen roster =
    let (rows, seen) = present_rows names now first_seen msg in
    let live = map (λ r. r.student_id) rows in
    record {
      rows = rows;
      first_seen = forget live seen;
      roster =
          map_values (drop_live live)
            (upsert_all (λ r. r.student_id) (present_touch now) rows roster);
    }

abbrev pub attended_touch :
    Dict NameEntry → ℕ → String → Option SessionRosterEntry → SessionRosterEntry
attended_touch names now id none = unseen names now id camera
attended_touch names now id (some entry) = entry

-- The lecture branch on `msg.attended`: the set is merged, and who is not on the roster is added.
unfoldable pub merge_attended :
    Dict NameEntry
    → ℕ
    → List String
    → List String
    → Dict SessionRosterEntry
    → List String × Dict SessionRosterEntry
merge_attended names now msg attended roster =
    (add_all msg attended, upsert_all (λ id. id) (attended_touch names now) msg roster)
