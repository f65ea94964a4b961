-- ===== src/Capture/Socket/Lifecycle.antt =====
-- The end of a session, and reconnection.
use sensepro.Prelude.{
  ℕ, suc, ◌+◌, ◌≡◌, ◌≢◌, refl, ◌∙◌, true, false, String, List, [], ◌∷◌, arith, none, some, eq_iff,
  Bool, ◌⊎◌, inl, inr,
}
use sensepro.Capture.Socket.{
  Link, Event, step, act, history, event, start_ok, stop, token, socket_opened, socket_closed,
  socket_errored, timer_fired, tick, answer, rendered, run, teardown, live, reconnecting,
}

-- No session, no reconnect and no half-opened socket: nothing is left that could open one.
pub record IsQuiet (s : Link) : Type 0 where
  pub not_running : s.running ≡ false
  pub ending : (s.stopping ≡ true) ⊎ (s.running_ref ≡ false)
  pub no_timer : s.timer ≡ false
  pub none_opening : s.opening ≡ 0

step-IsQuiet :
    (e : Event) (s : Link) → IsQuiet s → IsQuiet (step e s) × ((step e s).opened ≡ s.opened)
unfolding step
step-IsQuiet (token t constructed) s h = ground arith
step-IsQuiet (socket_opened id) s h = ground arith
step-IsQuiet (socket_closed id code reason) s h = ground arith
step-IsQuiet socket_errored s h = ground arith
step-IsQuiet timer_fired s h = ground arith
step-IsQuiet (tick ready) s h = ground arith
step-IsQuiet answer s h = ground arith
step-IsQuiet rendered s h = ground arith

run-IsQuiet :
    (es : List Event) (s : Link) → IsQuiet s → IsQuiet (run es s) × ((run es s).opened ≡ s.opened)
unfolding run
run-IsQuiet [] s h = (h, refl)
run-IsQuiet (e ∷ es) s h =
    let (quiet, same) = step-IsQuiet e s h in
    let (quiet', same') = run-IsQuiet es (step e s) quiet in (quiet', same' ∙ same)

-- The page renders before another of its sockets closes.
abbrev pub renders_first : List Event → Bool
renders_first [] = true
renders_first (rendered ∷ es) = true
renders_first (socket_closed id code reason ∷ es) = false
renders_first (_ ∷ es) = renders_first es

-- Before that render, a session that the backend has closed is quiet but for `runningRef`.
record IsClosed (s : Link) : Type 0 where
  not_running : s.running ≡ false
  no_timer : s.timer ≡ false
  none_opening : s.opening ≡ 0

abbrev closes : Event → Bool
closes (socket_closed id code reason) = true
closes _ = false

step-IsClosed :
    (e : Event) (s : Link)
    → closes e ≡ false
    → IsClosed s
    → IsClosed (step e s) × ((step e s).opened ≡ s.opened)
unfolding step
step-IsClosed (token t constructed) s c h = ground arith
step-IsClosed (socket_opened id) s c h = ground arith
step-IsClosed (socket_closed id code reason) s c h = absurd (ground (arith, c))
step-IsClosed socket_errored s c h = ground arith
step-IsClosed timer_fired s c h = ground arith
step-IsClosed (tick ready) s c h = ground arith
step-IsClosed answer s c h = ground arith
step-IsClosed rendered s c h = ground arith

closed-quiet :
    (es : List Event) (s : Link)
    → IsClosed s
    → renders_first es ≡ true
    → (run es s).opened ≡ s.opened
unfolding run step
closed-quiet [] s h f = refl
closed-quiet (rendered ∷ es) s h f =
    (run-IsQuiet es (record s { running_ref = s.running })
      (record {
        not_running = h.not_running;
        ending = inr h.not_running;
        no_timer = h.no_timer;
        none_opening = h.none_opening;
      })).1
closed-quiet (socket_closed id code reason ∷ es) s h f = absurd (ground (arith, f))
closed-quiet (token r constructed ∷ es) s h f =
    let (closed, same) = step-IsClosed (token r constructed) s refl h in
    closed-quiet es (step (token r constructed) s) closed f ∙ same
closed-quiet (socket_opened id ∷ es) s h f =
    let (closed, same) = step-IsClosed (socket_opened id) s refl h in
    closed-quiet es (step (socket_opened id) s) closed f ∙ same
closed-quiet (socket_errored ∷ es) s h f =
    let (closed, same) = step-IsClosed socket_errored s refl h in
    closed-quiet es (step socket_errored s) closed f ∙ same
closed-quiet (timer_fired ∷ es) s h f =
    let (closed, same) = step-IsClosed timer_fired s refl h in
    closed-quiet es (step timer_fired s) closed f ∙ same
closed-quiet (tick ready ∷ es) s h f =
    let (closed, same) = step-IsClosed (tick ready) s refl h in
    closed-quiet es (step (tick ready) s) closed f ∙ same
closed-quiet (answer ∷ es) s h f =
    let (closed, same) = step-IsClosed answer s refl h in
    closed-quiet es (step answer s) closed f ∙ same

-- With no `openSocket` under way, no sequence of events opens another socket after a teardown, and none
-- does after a policy close, provided that the page renders before another of its sockets closes.
pub run-quiet :
    (es later : List Event) (s : Link) (id : ℕ) (reason : String)
    → s.opening ≡ 0
    → renders_first later ≡ true
    → ((run es (teardown s)).opened ≡ s.opened)
      × ((run later (step (socket_closed id 1008 reason) s)).opened ≡ s.opened)
unfolding teardown step
run-quiet es later s id reason none_opening first =
    let torn = teardown s in
    let closed = step (socket_closed id 1008 reason) s in
    (
      (run-IsQuiet es torn (record {
        not_running = refl;
        ending = inl refl;
        no_timer = refl;
        none_opening = none_opening;
      })).1,
      closed-quiet later closed
          (record { not_running = refl; no_timer = refl; none_opening = none_opening }) first,
    )

-- A socket whose token is still under way when the session is torn down is opened all the same:
-- once a non-empty token has come, the page holds a socket although it is stopped.
pub teardown-late_token :
    (s : Link) (n : ℕ) (t : String)
    → s.opening ≡ suc n
    → t ≢ ""
    → let after = step (token (some t) true) (teardown s) in
      (after.ws ≡ some s.opened)
      × (after.opened ≡ s.opened + 1)
      × (after.stopping ≡ true)
      × (after.running ≡ false)
unfolding step teardown
teardown-late_token s n t h ne = ground (arith, eq_iff t "")

-- A session that starts again after a policy close leaves the first camera stream and the first send
-- timer running: the teardown stops only the newest of each.
pub restart-leak :
    (s : Link) (id : ℕ) (reason : String)
    → let after =
        history (start_ok ∷ event (socket_closed id 1008 reason) ∷ start_ok ∷ stop ∷ []) s in
      (after.streams ≡ s.streams + 1)
      × (after.senders ≡ s.senders + 1)
      × (after.stream_ref ≡ false)
      × (after.sender_ref ≡ false)
unfolding history act
restart-leak s id reason = ground arith

-- A start and a stop leave neither.
pub start-stop :
    (s : Link)
    → let after = history (start_ok ∷ stop ∷ []) s in
      (after.streams ≡ s.streams) × (after.senders ≡ s.senders) × (after.ws ≡ none)
unfolding history act
start-stop s = ground arith

-- While the page has rendered a running session, is not ending and has no `openSocket` under way, a socket that closes
-- with any code but 1008 is replaced when the timer has fired and a token has come, and once that
-- opens the attempts are counted anew.
pub reconnect :
    (s : Link) (id code : ℕ) (reason t : String)
    → s.running_ref ≡ true
    → s.stopping ≡ false
    → s.opening ≡ 0
    → code ≢ 1008
    → t ≢ ""
    → let down = run (socket_closed id code reason ∷ timer_fired ∷ token (some t) true ∷ []) s in
      (down.conn ≡ reconnecting)
      × (down.ws ≡ some s.opened)
      × (down.attempt ≡ s.attempt + 1)
      × (down.inflight ≡ 0)
      × ((step (socket_opened s.opened) down).conn ≡ live)
      × ((step (socket_opened s.opened) down).attempt ≡ 0)
unfolding run step
reconnect s id code reason t r k o c ne = ground (arith, eq_iff t "")
