-- ===== src/Capture/Starting.antt =====
-- apps/web/src/routes/capture.tsx: how a session starts, `start` and `startRtspSession` up to the point where
-- the page runs, with the socket's address and the mode from the URL. The requests, the readiness of
-- the backend and `getUserMedia` are arguments.
pub mod Closed
mod Tests
use sensepro.Prelude.{
  ℕ, String, Bool, true, false, not, ◌&&◌, ◌||◌, Option, none, some, str_eq, if◌then◌else◌,
}
use sensepro.Http.{Reply, replied, refused, thrown, Outcome, ok, err}
use sensepro.Capture.Types.{SessionMode, lecture, exam, workshop}
use sensepro.Capture.Worker.{Warning, close_session_record}
use sensepro.Camera.{BlockReason, Thrown}

-- `captureMode`: the query's `mode`, none without a window.
unfoldable pub capture_mode : Option (Option String) → SessionMode
capture_mode none = lecture
capture_mode (some none) = lecture
capture_mode (some (some mode)) =
    if str_eq mode "exam" then exam else if str_eq mode "workshop" then workshop else lecture

abbrev pub is_lecture : SessionMode → Bool
is_lecture lecture = true
is_lecture _ = false

pub data Scheme : Type 0 where
  ws wss : Scheme

-- `VITE_WS_URL`, trimmed: an absolute address with what `new URL` finds behind its scheme, a path, or
-- anything else.
pub data WsSetting : Type 0 where
  absolute : Scheme → String → WsSetting
  path : String → WsSetting
  other : WsSetting

pub record WsUrl : Type 0 where
  pub scheme : Scheme
  pub host : Option String  -- the page's, for an address that is not absolute
  pub rest : String

abbrev page_scheme : Bool → Scheme
page_scheme secure = if secure then wss else ws

unfoldable pub resolve_ws_url : Option WsSetting → Bool → String → WsUrl
resolve_ws_url (some (absolute scheme rest)) secure host = record {
  scheme = if secure then wss else scheme;
  host = none;
  rest = rest;
}
resolve_ws_url (some (path p)) secure host = record {
  scheme = page_scheme secure;
  host = some host;
  rest = p;
}
resolve_ws_url _ secure host = record {
  scheme = page_scheme secure;
  host = some host;
  rest = "/api/ws/capture";
}

-- Why a start failed.
pub data StartError : Type 0 where
  camera_blocked : BlockReason → StartError
  not_configured : StartError
  backend : String → StartError  -- the backend is not ready, or nobody is signed in
  session_refused : ℕ → Option String → StartError
  rtsp_refused : ℕ → Option String → StartError
  not_started : SessionMode → StartError → StartError
  camera : Thrown → StartError

-- A request for the session's record, after the authorization.
unfoldable pub create_session : Outcome (Unit {0}) String → Reply String → Outcome String StartError
create_session (err e) reply = err (backend e)
create_session (ok _) (replied id) = ok id
create_session (ok _) (refused status detail) = err (session_refused status detail)
create_session (ok _) (thrown e) = err (backend e)

-- The session that the camera is attached to: the one that is there, or a new one. A lecture goes on
-- without one.
unfoldable pub attach :
    SessionMode → Option String → Outcome String StartError → Outcome (Option String) StartError
attach mode (some id) created = ok (some id)
attach mode none (ok id) = ok (some id)
attach mode none (err e) = if is_lecture mode then ok none else err (not_started mode e)

-- `getUserMedia`, with the remembered device and then with any.
unfoldable pub open_camera :
    Option String
    → Outcome (Unit {0}) Thrown
    → Outcome (Unit {0}) Thrown
    → Outcome (Unit {0}) Thrown
open_camera device (ok u) loose = ok u
open_camera none (err e) loose = err e
open_camera (some device) (err e) loose =
    if not (str_eq device "") && is_missing e.name then loose else err e
  where
    is_missing : Option String → Bool
    is_missing none = false
    is_missing (some name) = str_eq name "OverconstrainedError" || str_eq name "NotFoundError"

-- What `start` depends on.
pub record Start : Type 0 where
  pub blocked : Option BlockReason
  pub ready : Outcome (Unit {0}) String
  pub authorization : Outcome (Unit {0}) String
  pub created : Reply String
  pub device : Option String
  pub exact : Outcome (Unit {0}) Thrown
  pub loose : Outcome (Unit {0}) Thrown
  pub closing : Reply (Unit {0})

-- How a start ends: whether the page runs, the session's id, the error that is shown with the
-- warning of the clean-up, whether the camera was asked for, and which session was closed.
pub record Started : Type 0 where
  pub running : Bool
  pub session : Option String
  pub error : Option StartError
  pub warning : Option Warning
  pub camera_asked : Bool
  pub closed : Option String

abbrev known : Option String → Option String
known none = none
known (some id) = if str_eq id "" then none else some id

abbrev close_of : Option String → Reply (Unit {0}) → Option Warning
close_of none closing = none
close_of (some _) closing = close_session_record closing

-- The `catch` of `start`: a session that is no lecture is closed and forgotten.
unfoldable pub start_failed :
    SessionMode → Option String → Bool → Reply (Unit {0}) → StartError → Started
start_failed mode session asked closing e =
    let lost = if is_lecture mode then none else known session in
    record {
      running = false;
      session = if is_lecture mode then session else none;
      error = some e;
      warning = close_of lost closing;
      camera_asked = asked;
      closed = lost;
    }

unfoldable pub with_camera : SessionMode → Option String → Start → Started
unfolding open_camera start_failed
with_camera mode session s = elim (open_camera s.device s.exact s.loose) [
  | err e ↦ start_failed mode session true s.closing (camera e)
  | ok _ ↦ record {
    running = true;
    session = session;
    error = none;
    warning = none;
    camera_asked = true;
    closed = none;
  }
]

unfoldable pub with_session : SessionMode → Option String → Start → Started
unfolding attach create_session with_camera start_failed
with_session mode session s =
    elim (attach mode (known session) (create_session s.authorization s.created)) [
      | err e ↦ start_failed mode session false s.closing e
      | ok attached ↦ with_camera mode attached s
    ]

-- `start` with the webcam, from the session's id that the page has.
unfoldable pub start : SessionMode → Option String → Start → Started
unfolding with_session start_failed
start mode session s = elim s.blocked [
  | some reason ↦ record {
    running = false;
    session = session;
    error = some (camera_blocked reason);
    warning = none;
    camera_asked = false;
    closed = none;
  }
  | none ↦ if is_lecture mode then with_session mode session s else (elim s.ready [
    | err e ↦ start_failed mode session false s.closing (backend e)
    | ok _ ↦ with_session mode session s
  ])
]

-- What `startRtspSession` depends on.
pub record RtspStart : Type 0 where
  pub configured : Bool
  pub authorization : Outcome (Unit {0}) String
  pub created : Reply String
  pub runner : Reply (Unit {0})
  pub closing : Reply (Unit {0})

-- Its `catch`: a session that is no lecture is closed; every session is forgotten.
unfoldable pub rtsp_failed : SessionMode → Option String → Reply (Unit {0}) → StartError → Started
rtsp_failed mode session closing e =
    let lost = if is_lecture mode then none else known session in
    record {
      running = false;
      session = none;
      error = some e;
      warning = close_of lost closing;
      camera_asked = false;
      closed = lost;
    }

unfoldable pub with_runner : SessionMode → String → RtspStart → Started
unfolding rtsp_failed
with_runner mode id s = elim s.runner [
  | replied _ ↦ record {
    running = true;
    session = some id;
    error = none;
    warning = none;
    camera_asked = false;
    closed = none;
  }
  | refused status detail ↦ rtsp_failed mode (some id) s.closing (rtsp_refused status detail)
  | thrown e ↦ rtsp_failed mode (some id) s.closing (backend e)
]

-- The authorization is asked for first, also when the session is there.
unfoldable pub rtsp_session : Option String → RtspStart → Outcome String StartError
unfolding create_session
rtsp_session session s = elim s.authorization [
  | err e ↦ err (backend e)
  | ok u ↦ elim (known session) [ some id ↦ ok id | none ↦ create_session (ok u) s.created ]
]

unfoldable pub start_rtsp : SessionMode → Option String → RtspStart → Started
unfolding rtsp_session with_runner rtsp_failed
start_rtsp mode session s =
    if not s.configured
    then record {
      running = false;
      session = session;
      error = some not_configured;
      warning = none;
      camera_asked = false;
      closed = none;
    }
    else (elim (rtsp_session session s) [
      | err e ↦ rtsp_failed mode session s.closing e
      | ok id ↦ with_runner mode id s
    ])
