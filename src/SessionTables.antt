-- ===== src/SessionTables.antt =====
-- The tables behind the session lists of apps/web/src/lib/data/live.ts, and the queries that fetch them
-- for the sessions of a mode. A query is a function of `Database` from the ids or sections it selects.
use sensepro.Prelude.{ℕ, String, Bool, true, false, Option, List, [], ◌∷◌, map, filter}
use sensepro.Prelude.Upsert.{add_all}
use sensepro.Http.{Query, Outcome, ok, checked}
use sensepro.Engagement.{AggregateMetricRow, Mean}
use sensepro.LiveRoster.{Mode, lecture, exam, workshop}

pub record SessionRow : Type 0 where
  pub id : String
  pub class_section : String
  pub subject : Option String
  pub mode : Mode
  pub starts_at : String
  pub ends_at : Option String

pub record PresenceRow : Type 0 where
  pub session_id : String
  pub student_id : String

pub record StudentSection : Type 0 where
  pub id : String
  pub class_section : String

pub record FlagRow : Type 0 where
  pub session_id : String
  pub review_status : String

pub record Database : Type 0 where
  pub presence : List String → Query (List PresenceRow)
  pub students : List String → Query (List StudentSection)
  pub flags : List String → Query (List FlagRow)
  pub zones : List String → Query (List AggregateMetricRow)

pub record ManagementSessionRow : Type 0 where
  pub id : String
  pub class_name : String
  pub class_section : String
  pub mode : Mode
  pub started_at : String
  pub ended_at : Option String
  pub present_count : ℕ
  pub total_count : ℕ
  pub vnei : Option Mean
  pub coverage : Option Mean
  pub reportable_windows : ℕ

pub record SessionHistoryRow : Type 0 where
  pub id : String
  pub class_section : String
  pub subject : Option String
  pub mode : Mode
  pub starts_at : String
  pub ends_at : Option String
  pub present_count : ℕ
  pub total_count : ℕ
  pub flag_count : ℕ
  pub pending_flag_count : ℕ
  pub vnei : Option Mean
  pub coverage : Option Mean
  pub reportable_windows : ℕ
  pub vnei_weight : Option ℕ  -- only the API gives the weights
  pub coverage_weight : Option ℕ

abbrev pub same_mode : Mode → Mode → Bool
same_mode lecture lecture = true
same_mode exam exam = true
same_mode workshop workshop = true
same_mode _ _ = false

abbrev pub of_mode : Mode → List SessionRow → List SessionRow
of_mode m sessions = filter (λ s. same_mode s.mode m) sessions

-- `if (sessions.length > 0) { … }`: no query for an empty selection.
abbrev pub unless_empty {ℓ} :
    {A : Type ℓ} → List SessionRow → Query (List A) → Outcome (List A) String
unless_empty [] query = ok []
unless_empty (_ ∷ _) query = checked query

abbrev pub ids : List SessionRow → List String
ids sessions = map (λ s. s.id) sessions

-- `[...new Set(sessions.map((s) => s.class_section))]`.
abbrev pub sections : List SessionRow → List String
sections sessions = add_all (map (λ s. s.class_section) sessions) []

-- The presence and roster rows of the lectures, and the zone rows of the workshops.
abbrev pub lecture_presence : Database → List SessionRow → Outcome (List PresenceRow) String
lecture_presence db sessions =
    unless_empty (of_mode lecture sessions) (db.presence (ids (of_mode lecture sessions)))

abbrev pub lecture_students : Database → List SessionRow → Outcome (List StudentSection) String
lecture_students db sessions =
    unless_empty (of_mode lecture sessions) (db.students (sections (of_mode lecture sessions)))

abbrev pub exam_flags : Database → List SessionRow → Outcome (List FlagRow) String
exam_flags db sessions =
    unless_empty (of_mode exam sessions) (db.flags (ids (of_mode exam sessions)))

abbrev pub workshop_zones : Database → List SessionRow → Outcome (List AggregateMetricRow) String
workshop_zones db sessions =
    unless_empty (of_mode workshop sessions) (db.zones (ids (of_mode workshop sessions)))
