-- ===== src/Capture/Socket/Flow.antt =====
-- Flow control over every history of the capture page.
use sensepro.Prelude.{
  ℕ, suc, ◌+◌, ◌*◌, ◌≤◌, ◌≡◌, refl, List, [], ◌∷◌, arith, if◌then◌else◌, ◌⊎◌, inl,
}
use sensepro.Capture.Socket.{
  Link, Event, Action, step, act, history, mounted, event, start_ok, rtsp_ok, start_error,
  save_and_end, stop, token, socket_opened, socket_closed, socket_errored, timer_fired, tick,
  answer, rendered, sends,
}

-- The frames sent, the answers received and the calls of `openSocket`.
pub record Tally : Type 0 where
  pub sent : ℕ
  pub answers : ℕ
  pub openings : ℕ

abbrev pub nothing : Tally
nothing = record { sent = 0; answers = 0; openings = 0 }

unfoldable pub tally : Action → Link → Tally → Tally
unfolding sends
tally (event (tick ready)) s t = if sends ready s then record t { sent = suc t.sent } else t
tally (event answer) s t = record t { answers = suc t.answers }
tally (event timer_fired) s t = if s.timer then record t { openings = suc t.openings } else t
tally start_ok s t = record t { openings = suc t.openings }
tally (rtsp_ok sid) s t = record t { openings = suc t.openings }
tally _ s t = t

unfoldable pub tally_all : List Action → Link → Tally → Tally
tally_all [] s t = t
tally_all (a ∷ as') s t = tally_all as' (act a s) (tally a s t)

-- The counter never passes two, and every call of `openSocket` allows two frames more; no sender runs before
-- the first call.
abbrev Paced : Link → Tally → Type 0
Paced s t =
    (s.inflight ≤ 2)
    × (((t.openings ≡ 0) × (s.senders ≡ 0) × (t.sent ≡ 0))
        ⊎ (t.sent + 2 ≤ t.answers + 2 * t.openings + s.inflight))

event-Paced :
    (e : Event) (s : Link) (t : Tally) → Paced s t → Paced (step e s) (tally (event e) s t)
unfolding step tally
event-Paced (token r constructed) s t h = ground arith
event-Paced (socket_opened id) s t h = ground arith
event-Paced (socket_closed id code reason) s t h = ground arith
event-Paced socket_errored s t h = ground arith
event-Paced timer_fired s t h = ground arith
event-Paced (tick ready) s t h = ground arith
event-Paced answer s t h = ground arith
event-Paced rendered s t h = ground arith

act-Paced : (a : Action) (s : Link) (t : Tally) → Paced s t → Paced (act a s) (tally a s t)
unfolding act tally
act-Paced (event e) s t h = event-Paced e s t h
act-Paced start_ok s t h = ground arith
act-Paced (rtsp_ok sid) s t h = ground arith
act-Paced (start_error is_lecture message) s t h = ground arith
act-Paced save_and_end s t h = ground arith
act-Paced stop s t h = ground arith

history-Paced :
    (as' : List Action) (s : Link) (t : Tally)
    → Paced s t
    → Paced (history as' s) (tally_all as' s t)
unfolding history tally_all
history-Paced [] s t h = h
history-Paced (a ∷ as') s t h = history-Paced as' (act a s) (tally a s t) (act-Paced a s t h)

-- Whatever the operator, the network and the clock do after the page has mounted: the page has sent at most
-- two frames more than it has answers for each call of `openSocket`, a restart or a reconnect
-- included, and its counter of frames in flight is at most two.
pub history-paced :
    (as' : List Action)
    → ((tally_all as' mounted nothing).sent
        ≤ (tally_all as' mounted nothing).answers + 2 * (tally_all as' mounted nothing).openings)
      × ((history as' mounted).inflight ≤ 2)
history-paced as' =
    ground (arith, history-Paced as' mounted nothing (omega arith, inl (refl, refl, refl)))
