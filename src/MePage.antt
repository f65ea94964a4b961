-- ===== src/MePage.antt =====
-- routes/_shell.me.tsx: the handlers of `MePage`, the views of the history that it shows and the buttons of the
-- request for deletion. The replies of the data modules are arguments.
mod Tests
pub mod Deletion
pub mod Types
use sensepro.Prelude.{
  ℕ, String, Bool, true, false, not, ◌&&◌, Option, none, some, List, [], ◌∷◌, ◌++◌, map, filter,
  find?, length, take, ltb, str_eq, if◌then◌else◌,
}
use sensepro.Http.{Outcome, ok, err}
use sensepro.LiveRoster.{Mode, lecture, exam, workshop, is_present}
use sensepro.SessionTables.{same_mode}
use sensepro.MyAttendance.{
  MyAttendanceResult, MyAttendanceRow, MyConsent, no_student, empty, done, error,
}
use sensepro.Admin.Requests.{MyDeletionRequest, Failure}

-- `consent` before its answer, and after it.
pub data Consent : Type 0 where
  loading : Consent
  known : Option MyConsent → Consent

pub record Page : Type 0 where
  pub result : Option MyAttendanceResult  -- none while it loads
  pub confirming : Bool
  pub confirmed : Bool
  pub deleted : Bool
  pub deleting : Bool
  pub checking : Option String
  pub consent : Consent

abbrev pub is_student : MyAttendanceResult → Bool
is_student no_student = false
is_student (error e) = false
is_student (empty student) = true
is_student (done student records) = true

-- The answer of the first request, while the page is mounted: the page, and whether it goes on to ask for
-- the deletion request and the consent.
unfoldable pub load_end : MyAttendanceResult → Page → Page × Bool
load_end r p =
    if is_student r
    then (record p { result = some r }, true)
    else (record p { result = some r; consent = known none }, false)

unfoldable pub deletion_answered : Outcome (Option MyDeletionRequest) Failure → Page → Page
deletion_answered (ok none) p = p
deletion_answered (ok (some req)) p =
    if not (str_eq req.status "denied") then record p { deleted = true } else p
deletion_answered (err e) p = p

unfoldable pub consent_answered : {E : Type 0} → Outcome (Option MyConsent) E → Page → Page
consent_answered (ok c) p = record p { consent = known c }
consent_answered (err e) p = record p { consent = known none }

-- `handleDeleteSubmit`, before and after its request.
unfoldable pub delete_begin : Page → Page
delete_begin p = record p { deleting = true }

unfoldable pub delete_end : Outcome MyDeletionRequest Failure → Page → Page
delete_end (ok req) p = record p { deleted = true; deleting = false }
delete_end (err e) p = record p { deleting = false }

-- `handleRequestCheck`, before its request and at its end, with the history that it loads again.
unfoldable pub check_begin : String → Page → Page
check_begin id p = record p { checking = some id }

unfoldable pub check_end : Outcome MyAttendanceResult Failure → Page → Page
check_end (ok again) p = record p { result = some again; checking = none }
check_end (err e) p = record p { checking = none }

-- What the section on deletion shows.
pub data Panel : Type 0 where
  submitted ask step_one step_two : Panel

unfoldable pub panel_of : Page → Panel
panel_of p =
    if p.deleted
    then submitted
    else if not p.confirming
    then ask
    else if not p.confirmed
    then step_one
    else step_two

unfoldable pub history : Option MyAttendanceResult → List MyAttendanceRow
history (some (done student records)) = records
history _ = []

abbrev reverse {ℓ} : {A : Type ℓ} → List A → List A
reverse [] = []
reverse (x ∷ xs) = reverse xs ++ x ∷ []

unfoldable pub strip : List MyAttendanceRow → List MyAttendanceRow
strip rows = reverse (take 21 rows)

pub record TypeCount : Type 0 where
  pub mode : Mode
  pub total : ℕ
  pub present : ℕ

unfoldable pub count_of : List MyAttendanceRow → Mode → TypeCount
count_of rows mode =
    let found = filter (λ h. same_mode h.mode mode) rows in
    record {
      mode = mode;
      total = length found;
      present = length (filter (λ h. is_present h.state) found);
    }

unfoldable pub by_type : List MyAttendanceRow → List TypeCount
unfolding count_of
by_type rows = filter (λ t. ltb 0 t.total) (map (count_of rows) (lecture ∷ exam ∷ workshop ∷ []))

abbrev pub is_unverified_live : MyAttendanceRow → Bool
is_unverified_live h = h.is_live && not (is_present h.state)

unfoldable pub live_unverified : List MyAttendanceRow → Option MyAttendanceRow
live_unverified rows = find? is_unverified_live rows
