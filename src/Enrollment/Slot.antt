-- ===== src/Enrollment/Slot.antt =====
-- One slot of the enrollment station, a video in one framing: choosing a file and uploading it.
use sensepro.Prelude.{
  ℕ, ◌*◌, ◌≤◌, ◌≡◌, String, Bool, true, false, Option, none, some, List, [], ◌∷◌, ltb, not, str_eq,
  if◌then◌else◌, arith,
}
use sensepro.Prelude.Upsert.{contains}
use sensepro.Http.{Reply, replied, refused, thrown}

pub record File : Type 0 where
  pub media_type : String
  pub size : ℕ

pub data SlotError : Type 0 where
  unsupported : String → SlotError
  too_large : ℕ → SlotError
  http_status : ℕ → SlotError
  message : String → SlotError

-- The state of `FramingSlot`; its result is what the server answers.
pub record Slot {ℓ} (R : Type ℓ) : Type ℓ where
  pub file : Option File
  pub uploading : Bool
  pub progress : ℕ
  pub result : Option R
  pub error : Option SlotError

abbrev pub max_file_mb : ℕ
max_file_mb = 50

abbrev pub allowed_types : List String
allowed_types = "video/mp4" ∷ "video/quicktime" ∷ "video/x-msvideo" ∷ "video/webm" ∷ []

-- `body.detail || `HTTP ${resp.status}``.
unfoldable pub refusal : ℕ → Option String → SlotError
refusal status none = http_status status
refusal status (some detail) = if str_eq detail "" then http_status status else message detail

module _ {ℓ} {R : Type ℓ} where
  unfoldable pub pick_file : Option File → Slot R → Slot R
  pick_file none s = record s { error = none; result = none; file = none }
  pick_file (some f) s =
      if not (contains allowed_types f.media_type)
      then record s {
        error = some (unsupported (if str_eq f.media_type "" then "unknown" else f.media_type));
        result = none;
      }
      else if ltb (max_file_mb * 1024 * 1024) f.size
      then record s { error = some (too_large f.size); result = none }
      else record s { error = none; result = none; file = some f }

  -- The Remove button.
  unfoldable pub remove : Slot R → Slot R
  remove s = record s { file = none }

  -- `upload` before its requests; the button is disabled without a file and during an upload.
  unfoldable pub upload_begin : Slot R → Option (Slot R)
  upload_begin s = elim s.file [
    | none ↦ none
    | some _ ↦ some (record s { uploading = true; progress = 15; error = none; result = none })
  ]

  unfoldable pub upload_failed : SlotError → Slot R → Slot R
  upload_failed e s = record s { error = some e; uploading = false }

  -- `upload` once there is a session, or none, and the reply has arrived.
  unfoldable pub upload_end : Bool → Reply R → Slot R → Slot R
  unfolding upload_failed refusal
  upload_end false reply s = upload_failed (message "Not authenticated") s
  upload_end true (replied r) s = record s {
    result = some r;
    progress = 100;
    file = none;
    uploading = false;
  }
  upload_end true (refused status detail) s =
      upload_failed (refusal status detail) (record s { progress = 90 })
  upload_end true (thrown e) s = upload_failed (message e) (record s { progress = 35 })

-- What happens to a slot; an upload starts by the button only.
pub data Event {ℓ} (R : Type ℓ) : Type ℓ where
  picked : Option File → Event R
  removed started : Event R
  ended : Bool → Reply R → Event R

module _ {ℓ} {R : Type ℓ} where
  unfoldable pub slot_step : Event R → Slot R → Slot R
  unfolding pick_file remove upload_begin upload_end
  slot_step (picked f) s = pick_file f s
  slot_step removed s = remove s
  slot_step started s = if s.uploading then s else (elim (upload_begin s) [ none ↦ s | some t ↦ t ])
  slot_step (ended session reply) s = upload_end session reply s

  unfoldable pub slot_run : List (Event R) → Slot R → Slot R
  unfolding slot_step
  slot_run [] s = s
  slot_run (e ∷ es) s = slot_run es (slot_step e s)

-- A file that may be uploaded.
abbrev pub IsAllowed : Option File → Type 0
IsAllowed none = Unit
IsAllowed (some f) = (contains allowed_types f.media_type ≡ true) × (f.size ≤ 50 * 1024 * 1024)

module _ {ℓ} {R : Type ℓ} where
  slot_step-IsAllowed :
      (e : Event R) (s : Slot R) → IsAllowed s.file → IsAllowed (slot_step e s).file
  unfolding slot_step pick_file remove upload_begin upload_end upload_failed
  slot_step-IsAllowed (picked none) s h = tt
  slot_step-IsAllowed (picked (some f)) s h = ground arith
  slot_step-IsAllowed removed s h = tt
  slot_step-IsAllowed started s h = ground arith
  slot_step-IsAllowed (ended false reply) s h = h
  slot_step-IsAllowed (ended true (replied r)) s h = tt
  slot_step-IsAllowed (ended true (refused c d)) s h = h
  slot_step-IsAllowed (ended true (thrown e)) s h = h

  -- Whatever files are picked, dropped, removed and uploaded, the file that a slot holds, and so every
  -- file that it uploads, is of an allowed type and has at most 50 MiB.
  pub slot_run-IsAllowed :
      (es : List (Event R)) (s : Slot R) → IsAllowed s.file → IsAllowed (slot_run es s).file
  unfolding slot_run
  slot_run-IsAllowed [] s h = h
  slot_run-IsAllowed (e ∷ es) s h =
      slot_run-IsAllowed es (slot_step e s) (slot_step-IsAllowed e s h)
