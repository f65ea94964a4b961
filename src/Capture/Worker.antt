-- ===== src/Capture/Worker.antt =====
-- apps/web/src/routes/capture.tsx, `closeSessionRecord` and `endRtspSession`: the end of a session whose
-- camera the backend reads. The warnings, texts in the source, are the list of their parts.
use sensepro.Prelude.{
  ℕ, zero, suc, ◌+◌, String, Bool, true, false, not, ◌&&◌, ◌||◌, Option, none, some, List, [], ◌∷◌,
  ◌++◌, if◌then◌else◌, str_eq, ◌==◌,
}
use sensepro.Http.{Reply, replied, refused, thrown}
use sensepro.Capture.Types.{EngagementWindowStatus}

pub data Warning : Type 0 where
  message : String → Warning
  close_failed : ℕ → Warning
  stop_failed : ℕ → Warning
  status_unavailable : Warning
  status_failed : ℕ → Warning
  worker_failed : Option String → Warning
  flush_unconfirmed : Warning
  no_session : Warning
  history_empty : Warning
  history_failed : String → Warning
  offline : Warning → Warning
  closed_unflushed : Warning
  write_unconfirmed : Warning
  write_unconfirmed_and : Warning → Warning
  not_persisted : Option String → Warning

-- `closeSessionRecord`: null if the session is closed.
unfoldable pub close_session_record : Reply (Unit {0}) → Option Warning
close_session_record (replied _) = none
close_session_record (refused status _) = some (close_failed status)
close_session_record (thrown e) = some (message e)

pub record RtspStatus : Type 0 where
  pub status : Option String
  pub running : Option Bool
  pub error : Option String
  pub window : Option EngagementWindowStatus

abbrev pub status_is : RtspStatus → String → Bool
status_is s text = elim s.status [ none ↦ false | some t ↦ str_eq t text ]

abbrev pub says_stopped : RtspStatus → Bool
says_stopped s =
    (elim s.running [ none ↦ false | some r ↦ not r ])
    || status_is s "stopped"
    || status_is s "idle"
    || status_is s "complete"

abbrev pub newer {ℓ} : {A : Type ℓ} → Option A → Option A → Option A
newer none old = old
newer (some a) old = some a

-- What the wait for the worker's last state found.
pub record Watch : Type 0 where
  pub failures : List Warning
  pub stop_confirmed : Bool
  pub status_check_failed : Bool
  pub window : Option EngagementWindowStatus

abbrev gave_up : Warning → Option EngagementWindowStatus → Watch
gave_up w window = record {
  failures = w ∷ [];
  stop_confirmed = false;
  status_check_failed = true;
  window = window;
}

abbrev refused_status : ℕ → Warning
refused_status code = if code == 404 then status_unavailable else status_failed code

-- What one status ends the wait with, or none to ask again.
unfoldable pub judge : Reply RtspStatus → Option EngagementWindowStatus → Option Watch
judge (thrown e) window = some (gave_up (message e) window)
judge (refused code _) window = some (gave_up (refused_status code) window)
judge (replied s) window =
    if status_is s "error"
    then some (record {
      failures = worker_failed s.error ∷ [];
      stop_confirmed = true;
      status_check_failed = false;
      window = newer s.window window;
    })
    else if says_stopped s
    then some (record {
      failures = [];
      stop_confirmed = true;
      status_check_failed = false;
      window = newer s.window window;
    })
    else none

abbrev pub window_of :
    Reply RtspStatus → Option EngagementWindowStatus → Option EngagementWindowStatus
window_of (replied s) window = newer s.window window
window_of _ window = window

-- The loop over at most twenty attempts; `asked` of them are over.
unfoldable pub watch : (ℕ → Reply RtspStatus) → ℕ → ℕ → Option EngagementWindowStatus → Watch
watch statuses zero asked window = record {
  failures = [];
  stop_confirmed = false;
  status_check_failed = false;
  window = window;
}
watch statuses (suc left) asked window = elim (judge (statuses asked) window) [
  | none ↦ watch statuses left (asked + 1) (window_of (statuses asked) window)
  | some w ↦ w
]

abbrev pub stop_failure : Reply (Unit {0}) → List Warning
stop_failure (replied _) = []
stop_failure (refused status _) = if status == 404 then [] else stop_failed status ∷ []
stop_failure (thrown e) = message e ∷ []

abbrev pub listed {ℓ} : {A : Type ℓ} → Option A → List A
listed none = []
listed (some a) = a ∷ []

pub record Ended : Type 0 where
  pub confirmed : Bool
  pub warnings : List Warning
  pub window : Option EngagementWindowStatus

abbrev pub is_empty {ℓ} : {A : Type ℓ} → List A → Bool
is_empty [] = true
is_empty (_ ∷ _) = false

unfoldable pub end_rtsp_session :
    Reply (Unit {0}) → (ℕ → Reply RtspStatus) → Reply (Unit {0}) → Ended
end_rtsp_session stop statuses close =
    let w = watch statuses 20 0 none in
    let unconfirmed =
      if not w.stop_confirmed && not w.status_check_failed then flush_unconfirmed ∷ [] else [] in
    let failures =
      stop_failure stop ++ (w.failures ++ (unconfirmed ++ listed (close_session_record close))) in
    record { confirmed = is_empty failures; warnings = failures; window = w.window }
