-- ===== src/Enrollment.antt =====
-- routes/_shell.enrollment.tsx: the enrollment station. The rows of the coverage view become a list of
-- students and a table of template counts; a student's quality, the tiles and the filtered list
-- follow from them, and a slot uploads one video. Texts are lowered and searched by the browser.
pub mod Tiles
pub mod Slot
mod Tests
use sensepro.Prelude.{
  ℕ, ◌+◌, String, Bool, true, false, ◌&&◌, ◌||◌, not, Option, none, some, List, [], ◌∷◌, map, ltb,
  ◌==◌, str_eq, if◌then◌else◌, get_or_default, filter, find?,
}
use sensepro.Prelude.Dict.{Dict, get}
use sensepro.Prelude.Upsert.{upsert_all}
use sensepro.Http.{Query, rows, failed}

pub data Quality : Type 0 where
  good fair weak missing : Quality

pub record StudentRow : Type 0 where
  pub id : String
  pub reg_no : String
  pub full_name : String
  pub class_section : Option String

pub record EmbStat : Type 0 where
  pub photo : ℕ
  pub video : ℕ
  pub video_knee : ℕ
  pub video_waist : ℕ
  pub total : ℕ

pub record CoverageRow : Type 0 where
  pub student_id : String
  pub reg_no : String
  pub full_name : String
  pub class_section : Option String
  pub total : ℕ
  pub photo : ℕ
  pub video_knee : ℕ
  pub video_waist : ℕ
  pub video : ℕ

abbrev pub empty_stat : EmbStat
empty_stat = record { photo = 0; video = 0; video_knee = 0; video_waist = 0; total = 0 }

unfoldable pub quality_of : EmbStat → Quality
quality_of st =
    if st.total == 0
    then missing
    else if has_photo && has_knee && has_waist
    then good
    else if has_photo && has_video
    then fair
    else weak
  where
    has_photo : Bool
    has_photo = ltb 0 st.photo

    has_knee : Bool
    has_knee = ltb 0 st.video_knee

    has_waist : Bool
    has_waist = ltb 0 st.video_waist

    has_video : Bool
    has_video = has_knee || has_waist || ltb 0 st.video

-- The state of `EnrollmentPage` that `load` writes.
pub record Station : Type 0 where
  pub students : List StudentRow
  pub stats : Dict EmbStat
  pub loading : Bool
  pub load_error : Option String

unfoldable pub stat_of_row : CoverageRow → EmbStat
stat_of_row r = record {
  total = r.total;
  photo = r.photo;
  video_knee = r.video_knee;
  video_waist = r.video_waist;
  video = r.video;
}

unfoldable pub student_of_row : CoverageRow → StudentRow
student_of_row r = record {
  id = r.student_id;
  reg_no = r.reg_no;
  full_name = r.full_name;
  class_section = r.class_section;
}

-- `for (const r of rows) agg[r.student_id] = { … }`.
unfoldable pub aggregate : List CoverageRow → Dict EmbStat
unfolding stat_of_row
aggregate rs = upsert_all (λ r. r.student_id) (λ r _. stat_of_row r) rs []

-- `load` before its query, and after it.
unfoldable pub load_begin : Station → Station
load_begin s = record s { loading = true; load_error = none }

unfoldable pub load_end : Query (List CoverageRow) → Station → Station
unfolding aggregate student_of_row
load_end (failed e) s = record s { load_error = some e; loading = false }
load_end (rows found) s = record s {
  students = map student_of_row (get_or_default found []);
  stats = aggregate (get_or_default found []);
  loading = false;
}

unfoldable pub stat_for : Station → String → EmbStat
stat_for s id = get_or_default (get id s.stats) empty_stat

-- The tiles.
pub record Counts : Type 0 where
  pub good : ℕ
  pub fair : ℕ
  pub weak : ℕ
  pub missing : ℕ

abbrev pub zero_counts : Counts
zero_counts = record { good = 0; fair = 0; weak = 0; missing = 0 }

unfoldable pub add_one : Quality → Counts → Counts
add_one good c = record c { good = c.good + 1 }
add_one fair c = record c { fair = c.fair + 1 }
add_one weak c = record c { weak = c.weak + 1 }
add_one missing c = record c { missing = c.missing + 1 }

unfoldable pub count_students : Station → List StudentRow → Counts → Counts
unfolding add_one quality_of stat_for
count_students s [] c = c
count_students s (x ∷ xs) c = count_students s xs (add_one (quality_of (stat_for s x.id)) c)

unfoldable pub summary : Station → Counts
unfolding count_students
summary s = count_students s s.students zero_counts

abbrev pub is_good : Quality → Bool
is_good good = true
is_good _ = false

-- The list below the tiles: `query.trim().toLowerCase()` is given, `includes` and `toLowerCase` are the
-- browser's.
module _ (includes : String → String → Bool) (lower : String → String) where
  unfoldable pub is_listed : Station → String → Bool → StudentRow → Bool
  unfolding quality_of stat_for
  is_listed s q only_incomplete x =
      if not (str_eq q "")
        && not (includes (lower x.full_name) q)
        && not (includes (lower x.reg_no) q)
      then false
      else if only_incomplete && is_good (quality_of (stat_for s x.id))
      then false
      else true

  unfoldable pub filtered : Station → String → Bool → List StudentRow
  unfolding is_listed
  filtered s q only_incomplete = filter (is_listed s q only_incomplete) s.students

-- `students.find((s) => s.id === selectedId) ?? null`.
unfoldable pub selected : Station → Option String → Option StudentRow
selected s none = none
selected s (some id) = find? (λ x. str_eq x.id id) s.students
