-- ===== src/Camera.antt =====
-- lib/camera.ts: why the camera cannot work at an origin, and what an operator is told of an error of
-- `getUserMedia`. What the window says of itself is an argument.
use Prim.Native.String.{◌∷◌}
use sensepro.Prelude.{
  ◌≡◌, ◌↔◌, String, Bool, true, ◌&&◌, ◌||◌, not, Option, none, some, str_eq, if◌then◌else◌, arith,
  is_some,
}
use sensepro.Auth.Token.{append}

pub record Window : Type 0 where
  pub is_secure : Bool
  pub has_media_devices : Bool
  pub hostname : String
  pub port : String
  pub pathname : String
  pub search : String

-- The two sentences of `cameraBlockReason`: the host that is not secure with the URL to open instead, or
-- a browser without `navigator.mediaDevices`.
pub data BlockReason : Type 0 where
  insecure : String → String → BlockReason
  no_media_devices : BlockReason

-- ``http://localhost${port ? `:${port}` : ""}${pathname}${search}``.
unfoldable pub local_url : Window → String
unfolding append
local_url w =
    append "http://localhost"
      (append (if str_eq w.port "" then "" else ":" ∷ w.port) (append w.pathname w.search))

unfoldable pub camera_block_reason : Option Window → Option BlockReason
unfolding local_url
camera_block_reason none = none
camera_block_reason (some w) =
    if w.is_secure && w.has_media_devices
    then none
    else if not w.is_secure
    then some (insecure w.hostname (local_url w))
    else some no_media_devices

unfoldable pub camera_available : Option Window → Bool
unfolding camera_block_reason
camera_available w = not (is_some (camera_block_reason w))

-- What was thrown: its name, if it has one, and the message of an `Error`, else the empty text.
pub record Thrown : Type 0 where
  pub name : Option String
  pub raw : String

pub data Advice : Type 0 where
  blocked : BlockReason → Advice
  permission_denied not_attached in_use not_available failed_to_start unavailable : Advice
  said : String → Advice

abbrev default_advice : String → Advice
default_advice raw = if str_eq raw "" then unavailable else said raw

-- The `switch` on the name.
unfoldable pub advice_of : String → String → Advice
advice_of name raw =
    if str_eq name "NotAllowedError" || str_eq name "SecurityError"
    then permission_denied
    else if str_eq name "NotFoundError" || str_eq name "DevicesNotFoundError"
    then not_attached
    else if str_eq name "NotReadableError" || str_eq name "TrackStartError"
    then in_use
    else if str_eq name "OverconstrainedError" || str_eq name "ConstraintNotSatisfiedError"
    then not_available
    else if str_eq name "AbortError"
    then failed_to_start
    else default_advice raw

unfoldable pub describe_camera_error : Option Window → Thrown → Advice
unfolding camera_block_reason advice_of
describe_camera_error w e = elim (camera_block_reason w) [
  | some reason ↦ blocked reason
  | none ↦ elim e.name [ none ↦ default_advice e.raw | some name ↦ advice_of name e.raw ]
]

-- A camera can be opened outside a browser's window, as far as is known, or in a window that is secure
-- and has the interface.
pub camera_available_iff :
    (w : Window)
    → (camera_available (some w) ≡ true) ↔ ((w.is_secure ≡ true) × (w.has_media_devices ≡ true))
unfolding camera_available camera_block_reason
camera_available_iff w = ground arith
