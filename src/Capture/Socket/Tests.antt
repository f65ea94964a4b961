-- ===== src/Capture/Socket/Tests.antt =====
-- The capture socket at concrete histories.
use sensepro.Prelude.{◌≡◌, refl, ◌≤◌, ◌+◌, ◌*◌, true, some, List, [], ◌∷◌, arith, differ}
use sensepro.Capture.Socket.{
  Link, Event, token, socket_opened, socket_closed, timer_fired, tick, rendered, sends, mounted,
  history, Action, event, start_ok, run, step, teardown, act, begin, live, reconnecting,
}
use sensepro.Capture.Socket.Flow.{nothing, tally_all, history-paced}
use sensepro.Capture.Socket.Lifecycle.{run-quiet, reconnect}

-- A session that is live on its first socket.
abbrev going : Link
going = record mounted {
  running = true;
  running_ref = true;
  conn = live;
  ws = some 0;
  opened = 1;
  stream_ref = true;
  streams = 1;
}

abbrev busy : List Action
busy =
    start_ok
    ∷ event (token (some "t") true)
    ∷ event (tick true)
    ∷ event (tick true)
    ∷ event (tick true)
    ∷ []

history-paced_example :
    ((tally_all busy mounted nothing).sent
      ≤ (tally_all busy mounted nothing).answers + 2 * (tally_all busy mounted nothing).openings)
    × ((history busy mounted).inflight ≤ 2)
history-paced_example = history-paced busy

-- The third tick finds two frames unanswered and sends nothing.
history_test : (history busy mounted).inflight ≡ 2
unfolding history act step begin sends
history_test = refl

-- The socket of a torn-down session closes before the page renders.
abbrev busy_end : List Event
busy_end = socket_closed 0 1006 "" ∷ rendered ∷ timer_fired ∷ []

abbrev later : List Event
later = rendered ∷ timer_fired ∷ token (some "t") true ∷ []

run-quiet_example :
    ((run busy_end (teardown going)).opened ≡ 1)
    × ((run later (step (socket_closed 0 1008 "ended") going)).opened ≡ 1)
run-quiet_example = run-quiet busy_end later going 0 "ended" refl refl

-- The same session with a second `openSocket` under way.
abbrev opening_again : Link
opening_again = record going { opening = 1 }

reconnect_example :
    let down = run (socket_closed 0 1006 "" ∷ timer_fired ∷ token (some "t") true ∷ []) going in
    (down.conn ≡ reconnecting)
    × (down.ws ≡ some 1)
    × (down.attempt ≡ 1)
    × (down.inflight ≡ 0)
    × ((step (socket_opened 1) down).conn ≡ live)
    × ((step (socket_opened 1) down).attempt ≡ 0)
reconnect_example = reconnect going 0 1006 "" "t" refl refl refl (omega arith) (differ "t" "" refl)
