-- ===== src/Sessions/Rows.antt =====
-- The rows of the session lists against a direct description: the counts of a session are taken from
-- its own rows of the tables, and only from the tables of its mode.
use sensepro.Prelude.{
  ℕ, ◌≡◌, refl, ap, String, Option, none, some, List, [], ◌∷◌, map, filter, length, any,
  if◌then◌else◌, str_eq, arith, ◌≢◌,
}
use sensepro.Prelude.Upsert.{add_all}
use sensepro.Http.{ok}
use sensepro.Engagement.{
  AggregateMetricRow, AggregateSummary, summaries_by_session, summarise_aggregates,
}
use sensepro.Engagement.Bounds.{get-summaries_by_session}
use sensepro.LiveRoster.{Mode, lecture, exam, workshop}
use sensepro.Sessions.{
  vnei_of, coverage_of, windows_of, history_row, history_rows, management_row, from_history,
  present_by_session, roster_size_by_section, flag_count_by_session, pending_count_by_session,
  is_pending,
}
use sensepro.SessionTables.{
  SessionRow, PresenceRow, StudentSection, FlagRow, Database, SessionHistoryRow, lecture_presence,
  lecture_students, exam_flags, workshop_zones,
}
use sensepro.Sessions.Counts.{
  with_key, get-present_by_session, get-roster_size, get-flag_count, get-pending_count,
}

-- The different students among the presence rows of a session.
abbrev pub students_present : String → List PresenceRow → List String
students_present id presence =
    add_all (map (λ r. r.student_id) (with_key (λ r. r.session_id) id presence)) []

abbrev pub section_size : String → List StudentSection → ℕ
section_size section students = length (with_key (λ s. s.class_section) section students)

-- The summary of the zone rows of a session, if it has any.
abbrev pub own_summary : String → List AggregateMetricRow → Option AggregateSummary
own_summary id zones =
    if any (λ r. str_eq r.session_id id) zones
    then some (summarise_aggregates (filter (λ r. str_eq r.session_id id) zones))
    else none

abbrev no_counts : SessionRow → SessionHistoryRow
no_counts s = record {
  id = s.id;
  class_section = s.class_section;
  subject = s.subject;
  mode = s.mode;
  starts_at = s.starts_at;
  ends_at = s.ends_at;
  present_count = 0;
  total_count = 0;
  flag_count = 0;
  pending_flag_count = 0;
  vnei = none;
  coverage = none;
  reportable_windows = 0;
  vnei_weight = none;
  coverage_weight = none;
}

-- The row of a session, described mode by mode.
abbrev history_of :
    List PresenceRow
    → List StudentSection
    → List FlagRow
    → List AggregateMetricRow
    → Mode
    → SessionRow
    → SessionHistoryRow
history_of presence students flags zones lecture s = record (no_counts s) {
  present_count = length (students_present s.id presence);
  total_count = section_size s.class_section students;
}
history_of presence students flags zones exam s = record (no_counts s) {
  flag_count = length (with_key (λ f. f.session_id) s.id flags);
  pending_flag_count = length (with_key (λ f. f.session_id) s.id (filter is_pending flags));
}
history_of presence students flags zones workshop s = record (no_counts s) {
  vnei = vnei_of (own_summary s.id zones);
  coverage = coverage_of (own_summary s.id zones);
  reportable_windows = windows_of (own_summary s.id zones);
}

abbrev pub row_of :
    List PresenceRow
    → List StudentSection
    → List FlagRow
    → List AggregateMetricRow
    → SessionRow
    → SessionHistoryRow
row_of presence students flags zones s = history_of presence students flags zones s.mode s

history_row_lem :
    (presence : List PresenceRow) (students : List StudentSection) (flags : List FlagRow)
    (zones : List AggregateMetricRow) (s : SessionRow)
    → history_row
        (present_by_session presence)
        (roster_size_by_section students)
        (flag_count_by_session flags)
        (pending_count_by_session flags)
        (summaries_by_session zones)
        s
      ≡ row_of presence students flags zones s
unfolding history_row
history_row_lem presence students flags zones s =
    rw
      (
        get-present_by_session s.id presence,
        get-roster_size s.class_section students,
        get-flag_count s.id flags,
        get-pending_count s.id flags,
        get-summaries_by_session s.id zones,
      )
      (ground arith)

map_ext {ℓ κ} :
    {A : Type ℓ} {B : Type κ} (f g : A → B)
    → ((x : A) → f x ≡ g x)
    → (xs : List A) → map f xs ≡ map g xs
map_ext f g h [] = refl
map_ext f g h (x ∷ xs) = rw (h x, map_ext f g h xs) refl

-- With the answers of the queries at hand, the history is one row for each session, in order,
-- with the counts of that session's own rows or its section's students, by the tables of its mode
-- alone.
pub history_rows_lem :
    (db : Database) (sessions : List SessionRow) (presence : List PresenceRow)
    (students : List StudentSection) (flags : List FlagRow) (zones : List AggregateMetricRow)
    → lecture_presence db sessions ≡ ok presence
    → lecture_students db sessions ≡ ok students
    → exam_flags db sessions ≡ ok flags
    → workshop_zones db sessions ≡ ok zones
    → history_rows db sessions ≡ ok (map (row_of presence students flags zones) sessions)
unfolding history_rows
history_rows_lem db [] presence students flags zones p r f z = refl
history_rows_lem db (s ∷ sessions) presence students flags zones p r f z =
    rw (p, r, f, z)
      (ap ok (
        map_ext _ (row_of presence students flags zones)
          (history_row_lem presence students flags zones) (s ∷ sessions)))

-- The management list and the session history, read from the same tables, show the same attendance
-- for a lecture and the same engagement for a workshop; but the management list shows the number of
-- the section's students in the roster rows also for an exam or workshop, where the history has 0.
pub management_row-history :
    (presence : List PresenceRow) (students : List StudentSection) (flags : List FlagRow)
    (zones : List AggregateMetricRow) (s : SessionRow)
    → let m =
        management_row
          (present_by_session presence)
          (roster_size_by_section students)
          (summaries_by_session zones)
          s in
      let h = from_history (row_of presence students flags zones s) in
      (s.mode ≡ lecture → (m.present_count ≡ h.present_count) × (m.total_count ≡ h.total_count))
      × (s.mode ≡ workshop
          → (m.vnei ≡ h.vnei)
            × (m.coverage ≡ h.coverage)
            × (m.reportable_windows ≡ h.reportable_windows))
      × (m.total_count ≡ section_size s.class_section students)
      × (s.mode ≢ lecture → h.total_count ≡ 0)
unfolding management_row
management_row-history presence students flags zones s =
    rw
      (
        get-present_by_session s.id presence,
        get-roster_size s.class_section students,
        get-summaries_by_session s.id zones,
      )
      (ground arith)
