-- ===== src/Capture/Starting/Closed.antt =====
-- Sessions other than lectures fail closed when they are started.
use mathlib.Core.Path.{subst, sym}
use sensepro.Prelude.{
  ◌∙◌, Bool-cases, ◌≡◌, refl, ◌⊎◌, inl, inr, String, Bool, true, false, Option, none, some, is_some,
  arith,
}
use sensepro.Http.{Reply, Outcome, ok, err, is_ok}
use sensepro.Capture.Types.{SessionMode, lecture}
use sensepro.Capture.Starting.{
  camera, backend, is_lecture, wss, WsSetting, absolute, path, other as other_setting,
  resolve_ws_url, StartError, create_session, attach, open_camera, Start, Started, start_failed,
  with_camera, with_session, start, not_started, known,
}

-- A page that was opened over https never opens an unencrypted socket, and an address with its own
-- encrypted scheme keeps it on any page.
pub resolve_ws_url-secure :
    (setting : Option WsSetting) (secure : Bool) (host rest : String)
    → (secure ≡ true → (resolve_ws_url setting secure host).scheme ≡ wss)
      × ((resolve_ws_url (some (absolute wss rest)) secure host).scheme ≡ wss)
unfolding resolve_ws_url
resolve_ws_url-secure none secure host rest = ground arith
resolve_ws_url-secure (some (absolute s r)) secure host rest = ground arith
resolve_ws_url-secure (some (path p)) secure host rest = ground arith
resolve_ws_url-secure (some other_setting) secure host rest = ground arith

-- A page that runs shows no error, has closed nothing, and has a session unless it is a lecture; a page
-- that does not run says why, and has forgotten the session of anything but a lecture.
abbrev pub IsFailClosed : SessionMode → Started → Type 0
IsFailClosed mode r =
    ((r.running ≡ true)
      × (is_some r.error ≡ false)
      × (is_some r.closed ≡ false)
      × (is_lecture mode ≡ false → is_some r.session ≡ true))
    ⊎ ((r.running ≡ false)
        × (is_some r.error ≡ true)
        × (is_lecture mode ≡ false → is_some r.session ≡ false))

Outcome-cases : {A E : Type 0} (o : Outcome A E) → ((a : A) × (o ≡ ok a)) ⊎ ((e : E) × (o ≡ err e))
Outcome-cases (ok a) = inl (a, refl)
Outcome-cases (err e) = inr (e, refl)

start_failed-IsFailClosed :
    (mode : SessionMode) (session : Option String) (asked : Bool) (closing : Reply (Unit {0}))
    (e : StartError)
    → IsFailClosed mode (start_failed mode session asked closing e)
unfolding start_failed
start_failed-IsFailClosed mode session asked closing e = inr (refl, refl, λ h. ground (arith, h))

with_camera-IsFailClosed :
    (mode : SessionMode) (session : Option String) (s : Start)
    → (is_lecture mode ≡ false → is_some session ≡ true)
    → IsFailClosed mode (with_camera mode session s)
unfolding with_camera
with_camera-IsFailClosed mode session s h =
    elim (Outcome-cases (open_camera s.device s.exact s.loose)) [
      | inl (u, e) ↦ rw (e, with_camera) (inl (refl, refl, refl, h))
      | inr (f, e) ↦
          rw (e, with_camera) (start_failed-IsFailClosed mode session true s.closing (camera f))
    ]

attach-is_some :
    (mode : SessionMode) (session attached : Option String) (created : Outcome String StartError)
    → attach mode session created ≡ ok attached
    → is_lecture mode ≡ false
    → is_some attached ≡ true
unfolding attach
attach-is_some mode (some id) attached created e h = ground (arith, e)
attach-is_some mode none attached (ok id) e h = ground (arith, e)
attach-is_some mode none attached (err f) e h = ground (arith, e, h)

with_session-IsFailClosed :
    (mode : SessionMode) (session : Option String) (s : Start)
    → IsFailClosed mode (with_session mode session s)
unfolding with_session
with_session-IsFailClosed mode session s =
    elim (Outcome-cases (attach mode (known session) (create_session s.authorization s.created))) [
      | inl (attached, e) ↦
          rw (e, with_session)
            (with_camera-IsFailClosed mode attached s
              (attach-is_some mode (known session) attached _ e))
      | inr (f, e) ↦ rw (e, with_session) (start_failed-IsFailClosed mode session false s.closing f)
    ]

-- What is left of a start where the camera can be used.
module _ (mode : SessionMode) (session : Option String) (s : Start) (b : s.blocked ≡ none) where
  start-with_session :
      (is_lecture mode ≡ true) ⊎ (is_ok s.ready ≡ true)
      → start mode session s ≡ with_session mode session s
  unfolding start
  start-with_session h = elim (Outcome-cases s.ready) [
    | inl (u, up) ↦ rw (b, start, up) (ground arith)
    | inr (f, down) ↦ rw (b, start, down) (ground (arith, down))
  ]

  start-not_ready :
      (f : String)
      → is_lecture mode ≡ false
      → s.ready ≡ err f
      → start mode session s ≡ start_failed mode session false s.closing (backend f)
  unfolding start
  start-not_ready f is_other down = rw (b, start, down) (ground arith)

-- Where the camera can be used, a start with the webcam either runs without an error, with a session
-- unless it is a lecture, or does not run, says why, and has forgotten the session unless it is a
-- lecture.
pub start-IsFailClosed :
    (mode : SessionMode) (session : Option String) (s : Start)
    → s.blocked ≡ none
    → IsFailClosed mode (start mode session s)
start-IsFailClosed mode session s b =
    let runs = with_session-IsFailClosed mode session s in
    elim (Bool-cases (is_lecture mode)) [
      | inl attends ↦
          subst (IsFailClosed mode) (sym (start-with_session mode session s b (inl attends))) runs
      | inr is_other ↦ elim (Outcome-cases s.ready) [
        | inl (u, up) ↦
            subst (IsFailClosed mode)
              (sym (start-with_session mode session s b (inr (ground (arith, up))))) runs
        | inr (f, down) ↦
            subst (IsFailClosed mode) (sym (start-not_ready mode session s b f is_other down))
              (start_failed-IsFailClosed mode session false s.closing (backend f))
      ]
    ]

attach-refused :
    (mode : SessionMode) (f : StartError)
    → is_lecture mode ≡ false
    → attach mode none (err f) ≡ err (not_started mode f)
unfolding attach
attach-refused mode f is_other = rw is_other

with_session-refused :
    (mode : SessionMode) (s : Start) (f : StartError)
    → is_lecture mode ≡ false
    → create_session s.authorization s.created ≡ err f
    → with_session mode none s ≡ start_failed mode none false s.closing (not_started mode f)
unfolding with_session
with_session-refused mode s f is_other e = rw (e, with_session, attach-refused mode f is_other)

abbrev IsOff : Started → Type 0
IsOff r = (r.camera_asked ≡ false) × (r.running ≡ false)

-- An exam or a workshop whose session cannot be created never asks for the camera.
pub start-no_session :
    (mode : SessionMode) (s : Start)
    → s.blocked ≡ none
    → is_lecture mode ≡ false
    → is_ok (create_session s.authorization s.created) ≡ false
    → ((start mode none s).camera_asked ≡ false) × ((start mode none s).running ≡ false)
unfolding start_failed
start-no_session mode s b is_other h = elim (Outcome-cases s.ready) [
  | inr (f, down) ↦ subst IsOff (sym (start-not_ready mode none s b f is_other down)) (refl, refl)
  | inl (u, up) ↦ elim (Outcome-cases (create_session s.authorization s.created)) [
    | inl (id, e) ↦ absurd (ground (arith, e, h))
    | inr (f, e) ↦
        subst IsOff
          (sym (
            start-with_session mode none s b (inr (ground (arith, up)))
            ∙ with_session-refused mode s f is_other e))
          (refl, refl)
  ]
]

attach-lecture :
    (session : Option String) (created : Outcome String StartError)
    → (attached : Option String) × (attach lecture session created ≡ ok attached)
unfolding attach
attach-lecture (some id) created = (some id, refl)
attach-lecture none (ok id) = (some id, refl)
attach-lecture none (err e) = (none, refl)

with_camera-running :
    (mode : SessionMode) (session : Option String) (s : Start)
    → let r : Started = with_camera mode session s in
      (r.running ≡ is_ok (open_camera s.device s.exact s.loose)) × (r.camera_asked ≡ true)
unfolding with_camera start_failed
with_camera-running mode session s = elim (Outcome-cases (open_camera s.device s.exact s.loose)) [
  | inl (u, e) ↦ rw (e, with_camera) (refl, refl)
  | inr (f, e) ↦ rw (e, with_camera) (refl, refl)
]

-- A lecture at an origin where the camera can be used asks for the camera and runs exactly when one
-- opens, whatever the backend answers.
pub start-lecture :
    (session : Option String) (s : Start)
    → s.blocked ≡ none
    → ((start lecture session s).running ≡ is_ok (open_camera s.device s.exact s.loose))
      × ((start lecture session s).camera_asked ≡ true)
unfolding with_session
start-lecture session s b =
    let (attached, e) = attach-lecture (known session) (create_session s.authorization s.created) in
    let to_camera : with_session lecture session s ≡ with_camera lecture attached s =
      rw (e, with_session) in
    subst
      (λ r. (r.running ≡ is_ok (open_camera s.device s.exact s.loose)) × (r.camera_asked ≡ true))
      (sym (start-with_session lecture session s b (inl refl) ∙ to_camera))
      (with_camera-running lecture attached s)
