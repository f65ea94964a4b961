-- ===== src/Capture/Ending/Confirm.antt =====
-- When the summary of a session says that its end is confirmed.
use sensepro.Prelude.{
  ◌≡◌, refl, ◌≢◌, ◌⊎◌, String, Bool, true, false, ◌&&◌, Option, none, some, List, [], ◌∷◌, arith,
  Option-cases, inl, inr, is_some,
}
use sensepro.Http.{Reply, replied, refused, thrown}
use sensepro.Capture.Types.{SessionMode, lecture, exam, workshop, EngagementWindowStatus}
use sensepro.Capture.Ending.{
  reported, check_history, finalize, Ending, rtsp, acked, timed_out, disconnected, save_and_end,
  first_of_two,
}
use sensepro.Capture.Worker.{Warning, no_session, offline, end_rtsp_session}

-- The server confirmed the end: it acknowledged a persisted write, or the RTSP end is confirmed.
abbrev pub backed : Option String → Reply (Unit {0}) → Ending → Bool
backed session close (rtsp stop statuses) =
    is_some session && (end_rtsp_session stop statuses close).confirmed
backed session close (acked persisted warning window) = persisted
backed session close timed_out = false
backed session close disconnected = false

finalize-confirmed :
    (mode : SessionMode) (fetch : String → Reply (List String)) (attached rtsp_id : Option String)
    (confirmed : Bool) (warnings : List Warning) (window : Option EngagementWindowStatus)
    → (finalize mode fetch attached rtsp_id confirmed warnings window).confirmed ≡ true
    → confirmed ≡ true
unfolding finalize
finalize-confirmed lecture fetch attached rtsp_id confirmed warnings window h = h
finalize-confirmed exam fetch attached rtsp_id confirmed warnings window h = h
finalize-confirmed workshop fetch attached rtsp_id confirmed warnings window h = ground arith

-- A summary that says "confirmed" is backed by the server: it acknowledged a persisted write, or
-- a session was there and its RTSP end is confirmed; never after a timeout and never offline.
pub save_and_end-confirmed :
    (mode : SessionMode) (fetch : String → Reply (List String)) (attached rtsp_id : Option String)
    (close : Reply (Unit {0})) (e : Ending)
    → (save_and_end mode fetch attached rtsp_id close e).confirmed ≡ true
    → backed (first_of_two attached rtsp_id) close e ≡ true
unfolding save_and_end
save_and_end-confirmed mode fetch none none close (rtsp stop statuses) h =
    finalize-confirmed mode fetch none none false (no_session ∷ []) none h
save_and_end-confirmed mode fetch none (some id) close (rtsp stop statuses) h =
    finalize-confirmed mode fetch none (some id) (end_rtsp_session stop statuses close).confirmed
      (end_rtsp_session stop statuses close).warnings (end_rtsp_session stop statuses close).window
      h
save_and_end-confirmed mode fetch (some id) r close (rtsp stop statuses) h =
    finalize-confirmed mode fetch (some id) r (end_rtsp_session stop statuses close).confirmed
      (end_rtsp_session stop statuses close).warnings (end_rtsp_session stop statuses close).window
      h
save_and_end-confirmed mode fetch attached r close (acked persisted warning window) h =
    finalize-confirmed mode fetch attached r persisted _ window h
save_and_end-confirmed mode fetch attached r close timed_out h =
    finalize-confirmed mode fetch attached r false _ none h
save_and_end-confirmed mode fetch attached r close disconnected h =
    finalize-confirmed mode fetch attached r false _ none h

history_stored :
    (confirmed : Bool) (warnings : List Warning) (window : Option EngagementWindowStatus)
    (reply : Reply (List String))
    → (check_history confirmed warnings window reply).confirmed ≡ true
    → (starts : List String) × (reply ≡ replied starts)
      × ((reported window ≡ false) ⊎ (starts ≢ []))
history_stored confirmed warnings window (replied starts) h = (starts, refl, ground arith)
history_stored confirmed warnings window (refused status detail) h = cc
history_stored confirmed warnings window (thrown e) h = cc

-- A workshop's confirmed summary has read the stored history of the attached session, or else of
-- the RTSP one, and if the server reported the final window then there is a stored row.
pub finalize-workshop :
    (fetch : String → Reply (List String)) (attached rtsp_id : Option String) (confirmed : Bool)
    (warnings : List Warning) (window : Option EngagementWindowStatus)
    → (finalize workshop fetch attached rtsp_id confirmed warnings window).confirmed ≡ true
    → (id : String) × (starts : List String) × (first_of_two attached rtsp_id ≡ some id)
      × (fetch id ≡ replied starts)
      × ((reported window ≡ false) ⊎ (starts ≢ []))
unfolding finalize
finalize-workshop fetch attached rtsp_id confirmed warnings window h =
    elim (Option-cases (first_of_two attached rtsp_id)) [
      | inl absent ↦ cc (rw (absent, finalize) at h)
      | inr (id, there) ↦
          let (starts, got, stored) =
            history_stored confirmed warnings window (fetch id) (rw (there, finalize) at h) in
          (id, starts, there, got, stored)
    ]

-- A lecture whose socket is down when it is ended is never closed through the API, and the summary
-- says that no session was attached, although one was.
pub save_and_end-offline_lecture :
    (fetch : String → Reply (List String)) (id : String) (rtsp_id : Option String)
    (close : Reply (Unit {0}))
    → let s = save_and_end lecture fetch (some id) rtsp_id close disconnected in
      (s.warnings ≡ offline no_session ∷ []) × (s.confirmed ≡ false)
unfolding save_and_end
save_and_end-offline_lecture fetch id rtsp_id close = (refl, refl)
