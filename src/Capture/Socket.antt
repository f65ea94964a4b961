-- ===== src/Capture/Socket.antt =====
-- apps/web/src/routes/capture.tsx: the life of the capture socket, event by event. `openSocket` runs
-- up to its first `await` and goes on when the token arrives, so the two halves are two events and
-- other events may fall between them. Also the send timer and the camera stream, which live and end
-- with the socket: `startSending`, the successful end of `start`, its `catch`, and `teardown`.
pub mod Flow
pub mod Lifecycle
mod Tests
use sensepro.Prelude.{
  ℕ, ◌+◌, ◌-◌, String, Bool, true, false, not, ◌&&◌, Option, none, some, List, [], ◌∷◌, ltb, ◌==◌,
  if◌then◌else◌, str_eq,
}

pub data ConnState : Type 0 where
  offline reconnecting live : ConnState

pub record Link : Type 0 where
  pub running : Bool
  pub running_ref : Bool  -- `runningRef`, as of the last render
  pub stopping : Bool
  pub stale : Bool
  pub conn : ConnState
  pub attempt : ℕ
  pub ws : Option ℕ  -- `wsRef`: which of the sockets opened so far
  pub opened : ℕ  -- how many sockets were constructed
  pub opening : ℕ  -- calls of `openSocket` that wait for their token
  pub timer : Bool  -- a reconnect is scheduled
  pub inflight : ℕ
  pub session_id : Option String
  pub perm_error : Option String
  pub feed_token : Option String
  pub senders : ℕ  -- send intervals that run
  pub sender_ref : Bool  -- `sendTimerRef` holds the newest of them
  pub streams : ℕ  -- camera streams with live tracks
  pub stream_ref : Bool  -- `streamRef` holds the newest of them

pub data Event : Type 0 where
  token : Option String → Bool → Event  -- `getAuthToken` answers; `new WebSocket` succeeds
  socket_opened : ℕ → Event
  socket_closed : ℕ → ℕ → String → Event  -- which socket, code and reason
  socket_errored : Event
  timer_fired : Event
  tick : Bool → Event  -- a send interval; whether video, socket and `send` are ready
  answer : Event  -- a result or error message
  rendered : Event  -- the effect that sets `runningRef` after a render

abbrev pub sign_in_again : String
sign_in_again =
    "Your sign-in session could not be refreshed. Sign in again before starting capture."

abbrev policy_reason : String → String
policy_reason reason =
    if str_eq reason ""
    then "Session is invalid, ended, or unauthorized. Start a new session."
    else reason

-- `openSocket`, up to `await getAuthToken(…)`.
unfoldable pub open_socket : Link → Link
open_socket s = record s { inflight = 0; opening = s.opening + 1 }

-- A missing or empty token is falsy.
abbrev usable : Option String → Option String
usable none = none
usable (some t) = if str_eq t "" then none else some t

abbrev connect : Option String → Bool → Link → Link
connect none constructed s = record s {
  conn = offline;
  stale = true;
  perm_error = some sign_in_again;
}
connect (some t) constructed s =
    let u = record s { feed_token = some t; attempt = s.attempt + 1 } in
    if constructed
    then record u { conn = reconnecting; ws = some s.opened; opened = s.opened + 1 }
    else record u { conn = offline }

-- The rest of `openSocket`.
unfoldable pub token_arrived : Option String → Bool → Link → Link
token_arrived reply constructed s =
    if ltb 0 s.opening
    then connect (usable reply) constructed (record s { opening = s.opening - 1 })
    else s

-- `ws.onclose`.
unfoldable pub on_close : ℕ → String → Link → Link
on_close code reason s =
    let t = record s { conn = offline; stale = true } in
    if code == 1008
    then record t {
      timer = false;
      perm_error = some (policy_reason reason);
      session_id = none;
      running = false;
    }
    else if s.running_ref && not s.stopping
    then record t { timer = true }
    else t

-- Whether a round of a send interval sends a frame.
unfoldable pub sends : Bool → Link → Bool
sends ready s = ready && ltb 0 s.senders && ltb s.inflight 2

-- One round of a send interval.
unfoldable pub send_tick : Bool → Link → Link
unfolding sends
send_tick ready s = if sends ready s then record s { inflight = s.inflight + 1 } else s

unfoldable pub step : Event → Link → Link
unfolding open_socket token_arrived on_close send_tick
step (token t constructed) s = token_arrived t constructed s
step (socket_opened id) s = record s { conn = live; attempt = 0 }
step (socket_closed id code reason) s = on_close code reason s
step socket_errored s = record s { conn = offline }
step timer_fired s = if s.timer then open_socket (record s { timer = false }) else s
step (tick ready) s = send_tick ready s
step answer s = record s { inflight = s.inflight - 1 }
step rendered s = record s { running_ref = s.running }

unfoldable pub run : List Event → Link → Link
run [] s = s
run (e ∷ es) s = run es (step e s)

-- The end of `start` once the camera is open: `openSocket()` and `startSending()` come last.
unfoldable pub begin : Link → Link
unfolding open_socket
begin s =
    let t = record s {
      streams = s.streams + 1;
      stream_ref = true;
      stopping = false;
      running = true;
    } in
    let u = open_socket t in record u { senders = u.senders + 1; sender_ref = true }

-- The end of `startRtspSession`, which sends no frames and opens no camera.
unfoldable pub begin_rtsp : String → Link → Link
unfolding open_socket
begin_rtsp sid s =
    open_socket (record s { session_id = some sid; stopping = false; running = true; conn = live })

-- The `catch` of `start`: the stream that `streamRef` holds is stopped.
unfoldable pub start_failed : Bool → String → Link → Link
start_failed is_lecture message s = record s {
  streams = if s.stream_ref then s.streams - 1 else s.streams;
  stream_ref = false;
  session_id = if is_lecture then s.session_id else none;
  perm_error = some message;
}

-- `saveAndEnd` with an open socket stops the reconnect loop first.
abbrev pub begin_end : Link → Link
begin_end s = record s { stopping = true }

unfoldable pub teardown : Link → Link
teardown s = record s {
  stopping = true;
  session_id = none;
  ws = none;
  senders = if s.sender_ref then s.senders - 1 else s.senders;
  sender_ref = false;
  timer = false;
  streams = if s.stream_ref then s.streams - 1 else s.streams;
  stream_ref = false;
  running = false;
  conn = offline;
}

-- The page as it mounts.
abbrev pub mounted : Link
mounted = record {
  running = false;
  running_ref = false;
  stopping = false;
  stale = false;
  conn = offline;
  attempt = 0;
  ws = none;
  opened = 0;
  opening = 0;
  timer = false;
  inflight = 0;
  session_id = none;
  perm_error = none;
  feed_token = none;
  senders = 0;
  sender_ref = false;
  streams = 0;
  stream_ref = false;
}

-- What the operator does, besides what the network and the clock do.
pub data Action : Type 0 where
  event : Event → Action
  start_ok : Action
  rtsp_ok : String → Action
  start_error : Bool → String → Action
  save_and_end : Action
  stop : Action

unfoldable pub act : Action → Link → Link
unfolding step begin begin_rtsp start_failed teardown
act (event e) s = step e s
act start_ok s = begin s
act (rtsp_ok sid) s = begin_rtsp sid s
act (start_error is_lecture message) s = start_failed is_lecture message s
act save_and_end s = begin_end s
act stop s = teardown s

unfoldable pub history : List Action → Link → Link
history [] s = s
history (a ∷ as') s = history as' (act a s)
