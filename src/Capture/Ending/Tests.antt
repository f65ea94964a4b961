-- ===== src/Capture/Ending/Tests.antt =====
-- Sessions that end, at concrete replies of the server.
use sensepro.Prelude.{ℕ, zero, suc, ◌≡◌, refl, ◌&&◌, String, true, none, some, List, [], ◌∷◌}
use sensepro.Http.{Reply, replied, refused}
use sensepro.Capture.Types.{workshop}
use sensepro.Capture.Ending.{save_and_end, finalize, acked}
use sensepro.Capture.Worker.{RtspStatus, end_rtsp_session}
use sensepro.Capture.Ending.Rtsp.{end_rtsp_session-confirmed, settles, accepted, is_replied}
use sensepro.Capture.Ending.Confirm.{save_and_end-confirmed, backed}
use sensepro.Capture.Ending.Race.{Saves, save, ack, timeout, run, step, fresh, save_once}

abbrev status : String → RtspStatus
status text = record { status = some text; running = none; error = none; window = none }

-- A worker that flushes for two polls and then stops.
statuses : ℕ → Reply RtspStatus
statuses zero = replied (status "flushing")
statuses (suc zero) = replied (status "flushing")
statuses (suc (suc n)) = replied (status "stopped")

end_rtsp_session-confirmed_example :
    (end_rtsp_session (refused 404 none) statuses (replied tt)).confirmed ≡ (
      accepted (refused 404 none)
      && (settles statuses 20 0 && is_replied {A = Unit {0}} (replied tt)))
end_rtsp_session-confirmed_example =
    end_rtsp_session-confirmed (refused 404 none) statuses (replied tt)

abbrev stored : String → Reply (List String)
stored _ = replied ("t1" ∷ "t1" ∷ [])

save_and_end-confirmed_example : backed (some "s1") (replied tt) (acked true none none) ≡ true
unfolding save_and_end finalize
save_and_end-confirmed_example =
    save_and_end-confirmed workshop stored (some "s1") none (replied tt) (acked true none none) refl

save_once_example :
    let after = step (timeout 0) (run (ack ∷ timeout 0 ∷ ack ∷ []) (step save fresh)) in
    (after.finalized ≡ 0 ∷ []) × (after.armed ≡ none) × (after.pending ≡ [])
save_once_example = save_once (ack ∷ timeout 0 ∷ ack ∷ []) fresh refl (tt)

-- The first save was acknowledged, and its timer still waits.
abbrev acknowledged_early : Saves
acknowledged_early = record { next = 1; armed = none; pending = 0 ∷ []; finalized = 0 ∷ [] }

acknowledged_early_test : run (save ∷ ack ∷ []) fresh ≡ acknowledged_early
unfolding run step
acknowledged_early_test = refl
