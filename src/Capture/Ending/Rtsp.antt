-- ===== src/Capture/Ending/Rtsp.antt =====
-- When the end of an RTSP session is confirmed.
use sensepro.Prelude.{
  ℕ, zero, suc, ◌+◌, ◌≡◌, ◌⊎◌, refl, ap, ◌∙◌, Bool, true, false, not, ◌&&◌, ◌||◌, Option, none,
  some, List, [], ◌∷◌, ◌++◌, arith, Option-cases, inl, inr, ◌==◌, if◌then◌else◌,
}
use sensepro.Http.{Reply, replied, refused, thrown}
use sensepro.Capture.Types.{EngagementWindowStatus}
use sensepro.Capture.Worker.{
  RtspStatus, Watch, Warning, status_is, says_stopped, judge, watch, window_of,
  close_session_record, end_rtsp_session, stop_failure, is_empty, listed, flush_unconfirmed,
}

-- The worker says that it has stopped, and reports no error.
abbrev pub stops : Reply RtspStatus → Bool
stops (replied s) = not (status_is s "error") && says_stopped s
stops _ = false

-- The worker says that it is still at work.
abbrev pub works : Reply RtspStatus → Bool
works (replied s) = not (status_is s "error") && not (says_stopped s)
works _ = false

-- One of the next `left` statuses stops, and those before it all work.
unfoldable pub settles : (ℕ → Reply RtspStatus) → ℕ → ℕ → Bool
settles statuses zero asked = false
settles statuses (suc left) asked =
    stops (statuses asked) || (works (statuses asked) && settles statuses left (asked + 1))

abbrev clean : Watch → Bool
clean w = w.stop_confirmed && is_empty w.failures

judge-none :
    (r : Reply RtspStatus) (window : Option EngagementWindowStatus)
    → judge r window ≡ none
    → (works r ≡ true) × (stops r ≡ false)
unfolding judge
judge-none (replied s) window h = ground arith
judge-none (refused code detail) window h = cc
judge-none (thrown e) window h = cc

judge-some :
    (r : Reply RtspStatus) (window : Option EngagementWindowStatus) (w : Watch)
    → judge r window ≡ some w
    → (works r ≡ false)
      × (clean w ≡ stops r)
      × ((w.status_check_failed ≡ false) ⊎ (is_empty w.failures ≡ false))
unfolding judge
judge-some (replied s) window w h = ground arith
judge-some (refused code detail) window w h = ground arith
judge-some (thrown e) window w h = ground arith

-- The wait comes to a confirmed stop exactly if one of its statuses stops after working ones, and a
-- failed status check leaves a warning.
watch-settles :
    (statuses : ℕ → Reply RtspStatus) (left asked : ℕ) (window : Option EngagementWindowStatus)
    → let w = watch statuses left asked window in
      (clean w ≡ settles statuses left asked)
      × ((w.status_check_failed ≡ false) ⊎ (is_empty w.failures ≡ false))
unfolding watch settles
watch-settles statuses zero asked window = (refl, inl refl)
watch-settles statuses (suc left) asked window =
    elim (Option-cases (judge (statuses asked) window)) [
      | inl again ↦
          let (works_on, not_stopped) = judge-none (statuses asked) window again in
          let (same, warned) =
            watch-settles statuses left (asked + 1) (window_of (statuses asked) window) in
          rw (again, watch, works_on, not_stopped) (same, warned)
      | inr (w, over) ↦
          let (idle, same, warned) = judge-some (statuses asked) window w over in
          rw (over, watch) (ground arith)
    ]

abbrev pub accepted : Reply (Unit {0}) → Bool
accepted (replied _) = true
accepted (refused status _) = status == 404
accepted (thrown _) = false

abbrev pub is_replied {ℓ} : {A : Type ℓ} → Reply A → Bool
is_replied (replied _) = true
is_replied _ = false

is_empty-append {ℓ} :
    {A : Type ℓ} (xs ys : List A) → is_empty (xs ++ ys) ≡ (is_empty xs && is_empty ys)
is_empty-append [] ys = refl
is_empty-append (x ∷ xs) ys = refl

stop_failure-accepted : (r : Reply (Unit {0})) → is_empty (stop_failure r) ≡ accepted r
stop_failure-accepted (replied _) = refl
stop_failure-accepted (refused status detail) = ground arith
stop_failure-accepted (thrown e) = refl

closed-listed : (r : Reply (Unit {0})) → is_empty (listed (close_session_record r)) ≡ is_replied r
unfolding close_session_record
closed-listed (replied _) = refl
closed-listed (refused status detail) = refl
closed-listed (thrown e) = refl

abbrev unconfirmed : Watch → List Warning
unconfirmed w =
    if not w.stop_confirmed && not w.status_check_failed then flush_unconfirmed ∷ [] else []

watched :
    (w : Watch)
    → ((w.status_check_failed ≡ false) ⊎ (is_empty w.failures ≡ false))
    → (is_empty w.failures && is_empty (unconfirmed w)) ≡ clean w
watched w h = ground arith

all_warnings :
    (stop close : Reply (Unit {0})) (w : Watch)
    → ((w.status_check_failed ≡ false) ⊎ (is_empty w.failures ≡ false))
    → is_empty (
        stop_failure stop ++ (w.failures ++ (unconfirmed w ++ listed (close_session_record close))))
      ≡ (accepted stop && (clean w && is_replied close))
all_warnings stop close w h =
    simp (is_empty-append, stop_failure-accepted, closed-listed, ← watched w h) (ground arith)

-- The end of an RTSP session is confirmed exactly if the stop request was accepted (or the worker
-- was gone), one of twenty statuses said that the worker stopped without error, those before it
-- that it was at work, and the session record was closed.
pub end_rtsp_session-confirmed :
    (stop : Reply (Unit {0})) (statuses : ℕ → Reply RtspStatus) (close : Reply (Unit {0}))
    → (end_rtsp_session stop statuses close).confirmed
      ≡ (accepted stop && (settles statuses 20 0 && is_replied close))
unfolding end_rtsp_session
end_rtsp_session-confirmed stop statuses close =
    let (same, warned) = watch-settles statuses 20 0 none in
    all_warnings stop close (watch statuses 20 0 none) warned
    ∙ ap (λ b. accepted stop && (b && is_replied close)) same
