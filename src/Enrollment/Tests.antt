-- ===== src/Enrollment/Tests.antt =====
-- The enrollment station on two students, and a slot.
use sensepro.Prelude.{
  ◌≡◌, ◌+◌, refl, true, false, none, some, List, [], ◌∷◌, length, filter, String, Bool,
}
use sensepro.Http.{rows}
use sensepro.Enrollment.{
  good, CoverageRow, quality_of, stat_of_row, Station, load_end, Counts, summary,
}
use sensepro.Enrollment.Tiles.{tile, same_quality, Distinct, summary-load_end}
use sensepro.Enrollment.Slot.{Slot, File, Event, picked, started}

abbrev complete : CoverageRow
complete = record {
  student_id = "s1";
  reg_no = "01";
  full_name = "Asha";
  class_section = some "A";
  total = 9;
  photo = 3;
  video_knee = 3;
  video_waist = 3;
  video = 0;
}

abbrev half : CoverageRow
half = record {
  student_id = "s2";
  reg_no = "02";
  full_name = "Ravi";
  class_section = none;
  total = 5;
  photo = 3;
  video_knee = 2;
  video_waist = 0;
  video = 0;
}

abbrev both : List CoverageRow
both = complete ∷ half ∷ []

abbrev before : Station
before = record { students = []; stats = []; loading = true; load_error = none }

both-Distinct : Distinct both
both-Distinct = (refl, (refl, tt))

summary-load_end_example :
    let c : Counts = summary (load_end (rows (some both)) before) in
    (tile good c ≡ length (filter (λ r. same_quality good (quality_of (stat_of_row r))) both))
    × (c.good + c.fair + c.weak + c.missing ≡ length both)
summary-load_end_example = summary-load_end both before good both-Distinct

one_good : length (filter (λ r. same_quality good (quality_of (stat_of_row r))) both) ≡ 1
unfolding quality_of stat_of_row
one_good = refl

abbrev loaded : Station
loaded = load_end (rows (some both)) before

abbrev nowhere : String → String → Bool
nowhere s t = false

abbrev fresh : Slot String
fresh = record { file = none; uploading = false; progress = 0; result = none; error = none }

abbrev clip : File
clip = record { media_type = "video/mp4"; size = 9000000 }

abbrev big : File
big = record { media_type = "video/mp4"; size = 90000000 }

abbrev events : List (Event String)
events = picked (some clip) ∷ picked (some big) ∷ started ∷ []
