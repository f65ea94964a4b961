-- ===== src/Capture/Ending.antt =====
-- apps/web/src/routes/capture.tsx: how a session ends, `saveAndEnd` with its `finalize`.
pub mod Rtsp
pub mod Confirm
pub mod Race
mod Tests
use sensepro.Prelude.{
  ℕ, ◌+◌, String, Bool, true, false, ◌&&◌, Option, none, some, List, [], ◌∷◌, ◌++◌, if◌then◌else◌,
  str_eq, length, get_or_default,
}
use sensepro.Prelude.Upsert.{add_all}
use sensepro.Http.{Reply, replied, refused, thrown}
use sensepro.Capture.Types.{SessionMode, lecture, workshop, EngagementWindowStatus, LastWindow}
use sensepro.Capture.Worker.{
  RtspStatus, Warning, close_session_record, closed_unflushed, end_rtsp_session, history_empty,
  history_failed, is_empty, no_session, not_persisted, offline, write_unconfirmed,
  write_unconfirmed_and,
}

pub record Summary : Type 0 where
  pub confirmed : Bool
  pub warnings : List Warning
  pub window : Option EngagementWindowStatus
  pub retained_rows : ℕ
  pub retained_windows : ℕ

abbrev last_state : Option LastWindow → Option String
last_state none = none
last_state (some w) = w.state

abbrev pub reported : Option EngagementWindowStatus → Bool
reported none = false
reported (some w) = elim (last_state w.last_window) [ none ↦ false | some s ↦ str_eq s "reported" ]

abbrev plain : Bool → List Warning → Option EngagementWindowStatus → Summary
plain confirmed warnings window = record {
  confirmed = confirmed;
  warnings = warnings;
  window = window;
  retained_rows = 0;
  retained_windows = 0;
}

-- The workshop's check of its history: the window starts of the rows that are stored.
abbrev pub check_history :
    Bool → List Warning → Option EngagementWindowStatus → Reply (List String) → Summary
check_history confirmed warnings window (thrown e) =
    plain false (warnings ++ history_failed e ∷ []) window
check_history confirmed warnings window (refused _ detail) =
    plain false
      (warnings ++ history_failed (get_or_default detail "workshop history unavailable") ∷ [])
      window
check_history confirmed warnings window (replied starts) =
    let missing = reported window && is_empty starts in
    record {
      confirmed = if missing then false else confirmed;
      warnings = if missing then warnings ++ history_empty ∷ [] else warnings;
      window = window;
      retained_rows = length starts;
      retained_windows = length (add_all starts []);
    }

abbrev check_workshop :
    (String → Reply (List String))
    → Option String
    → Bool
    → List Warning
    → Option EngagementWindowStatus
    → Summary
check_workshop fetch none confirmed warnings window =
    plain false (warnings ++ no_session ∷ []) window
check_workshop fetch (some id) confirmed warnings window =
    check_history confirmed warnings window (fetch id)

abbrev pub first_of_two : Option String → Option String → Option String
first_of_two none b = b
first_of_two (some a) b = some a

-- `finalize`, for the session that was attached when the end began.
unfoldable pub finalize :
    SessionMode
    → (String → Reply (List String))
    → Option String
    → Option String
    → Bool
    → List Warning
    → Option EngagementWindowStatus
    → Summary
finalize workshop fetch attached rtsp confirmed warnings window =
    check_workshop fetch (first_of_two attached rtsp) confirmed warnings window
finalize _ fetch attached rtsp confirmed warnings window = plain confirmed warnings window

abbrev pub is_lecture : SessionMode → Bool
is_lecture lecture = true
is_lecture _ = false

-- Whether the REST close is asked for, and its warning, when no acknowledgement came in time.
abbrev timeout_warning : SessionMode → Option String → Reply (Unit {0}) → Option Warning
timeout_warning mode none close = none
timeout_warning mode (some sid) close = if is_lecture mode then none else close_session_record close

-- The same where the socket is not open.
unfoldable pub offline_warning : SessionMode → Option String → Reply (Unit {0}) → Option Warning
offline_warning mode none close = some no_session
offline_warning mode (some sid) close =
    if is_lecture mode then some no_session else close_session_record close

-- The four ways in which `saveAndEnd` comes to `finalize`.
pub data Ending : Type 0 where
  rtsp : Reply (Unit {0}) → (ℕ → Reply RtspStatus) → Ending
  acked : Bool → Option String → Option EngagementWindowStatus → Ending
  timed_out : Ending
  disconnected : Ending

abbrev end_rtsp :
    SessionMode
    → (String → Reply (List String))
    → Option String
    → Option String
    → Reply (Unit {0})
    → (ℕ → Reply RtspStatus)
    → Reply (Unit {0})
    → Summary
end_rtsp mode fetch none none stop statuses close =
    finalize mode fetch none none false (no_session ∷ []) none
end_rtsp mode fetch attached rtsp_id stop statuses close =
    let e = end_rtsp_session stop statuses close in
    finalize mode fetch attached rtsp_id e.confirmed e.warnings e.window

unfoldable pub save_and_end :
    SessionMode
    → (String → Reply (List String))
    → Option String
    → Option String
    → Reply (Unit {0})
    → Ending
    → Summary
unfolding finalize offline_warning
save_and_end mode fetch attached rtsp_id close (rtsp stop statuses) =
    end_rtsp mode fetch attached rtsp_id stop statuses close
save_and_end mode fetch attached rtsp_id close (acked persisted warning window) =
    finalize mode fetch attached rtsp_id persisted
      (if persisted then [] else not_persisted warning ∷ []) window
save_and_end mode fetch attached rtsp_id close timed_out =
    finalize mode fetch attached rtsp_id false
      (elim (timeout_warning mode attached close) [
        | none ↦ write_unconfirmed ∷ []
        | some w ↦ write_unconfirmed_and w ∷ []
      ])
      none
save_and_end mode fetch attached rtsp_id close disconnected =
    finalize mode fetch attached rtsp_id false
      (elim (offline_warning mode attached close) [
        | none ↦ closed_unflushed ∷ []
        | some w ↦ offline w ∷ []
      ])
      none
