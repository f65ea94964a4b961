-- ===== src/Capture/Types.antt =====
-- apps/web/src/routes/capture.tsx: the messages of the capture socket and the rows that the page
-- keeps. Scores, boxes and angles are numbers that the handlers only pass on; times are
-- milliseconds, where the source divides by 1000. A list or text that the source may find missing is
-- an `Option`, or the value that the source puts in its place. The random ids of alerts and toasts,
-- which only key the rows of a list, are left out.
use sensepro.Prelude.{ℕ, String, Bool, Option, List}
use sensepro.Prelude.Dict.{Dict}
use sensepro.Prelude.Int.{ℤ}

pub data SessionMode : Type 0 where
  lecture exam workshop : SessionMode

pub data Via : Type 0 where
  camera qr override : Via

pub data Kind : Type 0 where
  enter leave recognised : Kind

pub data Presence : Type 0 where
  present absent : Presence

pub record Box : Type 0 where
  pub left : ℕ
  pub top : ℕ
  pub right : ℕ
  pub bottom : ℕ

pub record WsFace : Type 0 where
  pub box : Box
  pub student_id : Option String
  pub score : ℕ
  pub track_id : ℕ

pub record WsPresentRow : Type 0 where
  pub student_id : String
  pub name : String
  pub reg_no : String
  pub first_seen_ts : ℕ

-- An element of `present`: a bare id or a full row.
pub data WsPresent : Type 0 where
  bare : String → WsPresent
  full : WsPresentRow → WsPresent

pub record SessionRosterEntry : Type 0 where
  pub student_id : String
  pub name : String
  pub reg_no : String
  pub first_seen_ts : ℕ
  pub last_seen_ts : ℕ
  pub is_live : Bool
  pub via : Option Via

pub record WsTransition : Type 0 where
  pub kind : Option Kind
  pub state : Option Presence
  pub student_id : Option String
  pub name : Option String
  pub reg_no : Option String
  pub track_id : Option ℕ
  pub ts : Option ℕ

pub record WsProctorDet : Type 0 where
  pub label : String
  pub box : Box
  pub confidence : ℕ
  pub student_id : Option String

pub record WsProctorFlag : Type 0 where
  pub flag_type : String
  pub student_id : Option String
  pub id : Option String
  pub flagged_at : Option String
  pub ts : Option ℕ

pub record WsProctorPose : Type 0 where
  pub track_id : Option ℕ
  pub student_id : Option String
  pub yaw : Option ℤ
  pub pitch : Option ℤ
  pub state : Option String
  pub label : Option String

pub record WsProctor : Type 0 where
  pub detections : List WsProctorDet
  pub flags : List WsProctorFlag
  pub backend : Option String
  pub ready : Option Bool
  pub production : Option Bool
  pub poses : List WsProctorPose

pub record LastWindow : Type 0 where
  pub state : Option String
  pub window_start : Option String
  pub reported_zones : List String
  pub withheld_zones : Dict String

pub record EngagementWindowStatus : Type 0 where
  pub state : Option String
  pub window_s : Option ℕ
  pub elapsed_s : Option ℕ
  pub remaining_s : Option ℕ
  pub completed_windows : Option ℕ
  pub last_window : Option LastWindow

-- A Boolean or a number.
pub data Persisted : Type 0 where
  flag : Bool → Persisted
  count : ℕ → Persisted

pub record PhoneDetector : Type 0 where
  pub backend : Option String
  pub ready : Option Bool
  pub production : Option Bool
  pub error : Option String

pub record WsEngagement : Type 0 where
  pub visible : ℕ
  pub attending : ℕ
  pub head_down : ℕ
  pub phone : Option ℕ
  pub vnei : Option ℕ
  pub k_min : ℕ
  pub suppressed : Bool
  pub suppression_reason : Option String
  pub phone_detector : Option PhoneDetector
  pub observable : Option ℕ
  pub still : Option ℕ
  pub moving : Option ℕ
  pub window : Option EngagementWindowStatus
  pub window_s : Option ℕ
  pub persisted : Option Persisted

pub record WsResult : Type 0 where
  pub ts : ℕ
  pub faces : List WsFace
  pub present : Option (List WsPresent)
  pub transitions : List WsTransition
  pub attended : Option (List String)
  pub proctor : Option WsProctor
  pub engagement : Option WsEngagement
  pub sent_size : Option (ℕ × ℕ)

pub record ProctorAlert : Type 0 where
  pub type : String
  pub name : Option String
  pub ts : ℕ

pub record ProctorLiveState : Type 0 where
  pub phone : Bool
  pub phone_owner : Option String
  pub backend : Option String
  pub ready : Option Bool
  pub production : Option Bool
  pub poses : List WsProctorPose

-- An entry of `nameMapRef`.
pub record NameEntry : Type 0 where
  pub name : String
  pub reg_no : String

-- An entry of `tracksRef`, keyed by its `track_id`.
pub record TrackVis : Type 0 where
  pub prev : Box
  pub target : Box
  pub target_ts : ℕ
  pub appear_ts : ℕ
  pub label_appear_ts : ℕ
  pub student_id : Option String
  pub score : ℕ
  pub track_id : ℕ
  pub last_seen_ts : ℕ

-- The texts of the toasts that the page shows, by what they say.
pub data Toast : Type 0 where
  verified_via_qr entered_view recognised_now left_view : String → Toast
  candidate_event : String → Option String → Toast
