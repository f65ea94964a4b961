-- ===== src/Capture/Ending/Race.antt =====
-- apps/web/src/routes/capture.tsx, `saveAndEnd` with an open socket: the acknowledgement of the server
-- and the timeout of 3500 ms race for `endAckRef`. Each save is numbered; its timer is never cleared.
use sensepro.Prelude.{
  ℕ, ◌+◌, ◌≤◌, ◌≡◌, ◌≢◌, ◌⊎◌, Bool, true, Option, none, some, List, [], ◌∷◌, arith, length, any,
  ◌==◌, if◌then◌else◌,
}

pub record Saves : Type 0 where
  pub next : ℕ
  pub armed : Option ℕ  -- whose callback `endAckRef` holds
  pub pending : List ℕ  -- the timers that have not fired
  pub finalized : List ℕ  -- which save's `finalize` ran, the newest first

pub data Event : Type 0 where
  save : Event  -- the operator saves
  ack : Event  -- `session_ended` arrives
  timeout : ℕ → Event
  start : Event  -- a new session begins

unfoldable pub remove : ℕ → List ℕ → List ℕ
remove n [] = []
remove n (m ∷ ms) = if m == n then ms else m ∷ remove n ms

abbrev acknowledged : Option ℕ → Saves → Saves
acknowledged none s = s
acknowledged (some k) s = record s { armed = none; finalized = k ∷ s.finalized }

-- The timer's own closure finalizes, whoever armed the callback.
abbrev expired : ℕ → Option ℕ → Saves → Saves
expired n none s = s
expired n (some _) s = record s { armed = none; finalized = n ∷ s.finalized }

abbrev pub pends : ℕ → List ℕ → Bool
pends n ms = any (λ m. m == n) ms

unfoldable pub step : Event → Saves → Saves
unfolding remove
step save s = record s { next = s.next + 1; armed = some s.next; pending = s.next ∷ s.pending }
step ack s = acknowledged s.armed s
step (timeout n) s =
    if pends n s.pending then expired n s.armed (record s { pending = remove n s.pending }) else s
step start s = record s { armed = none }

unfoldable pub run : List Event → Saves → Saves
run [] s = s
run (e ∷ es) s = run es (step e s)

abbrev pub fresh : Saves
fresh = record { next = 0; armed = none; pending = []; finalized = [] }

abbrev waiting : Option ℕ → ℕ
waiting none = 0
waiting (some _) = 1

step-bound :
    (e : Event) (s : Saves)
    → length s.finalized + waiting s.armed ≤ s.next
    → length (step e s).finalized + waiting (step e s).armed ≤ (step e s).next
unfolding step
step-bound save s h = ground arith
step-bound ack s h = ground arith
step-bound (timeout n) s h = ground arith
step-bound start s h = ground arith

run-bound_from :
    (es : List Event) (s : Saves)
    → length s.finalized + waiting s.armed ≤ s.next
    → length (run es s).finalized + waiting (run es s).armed ≤ (run es s).next
unfolding run
run-bound_from [] s h = h
run-bound_from (e ∷ es) s h = run-bound_from es (step e s) (step-bound e s h)

-- Whatever the order of saves, acknowledgements, timeouts and starts, at most one summary is made for
-- each save.
pub run-bound : (es : List Event) → length (run es fresh).finalized ≤ (run es fresh).next
run-bound es = omega (arith, run-bound_from es fresh (omega arith))

-- Acknowledgements and timeouts only.
abbrev pub Settling : List Event → Type 0
Settling [] = Unit
Settling (save ∷ es) = ⊥
Settling (start ∷ es) = ⊥
Settling (ack ∷ es) = Settling es
Settling (timeout n ∷ es) = Settling es

-- A save of number `n` waits for either, or is finalized.
abbrev Phase : ℕ → List ℕ → Saves → Type 0
Phase n before s =
    ((s.armed ≡ some n) × (s.pending ≡ n ∷ []) × (s.finalized ≡ before))
    ⊎ ((s.armed ≡ none) × (s.finalized ≡ n ∷ before) × ((s.pending ≡ n ∷ []) ⊎ (s.pending ≡ [])))

ack-Phase : (n : ℕ) (before : List ℕ) (s : Saves) → Phase n before s → Phase n before (step ack s)
unfolding step
ack-Phase n before s h = ground arith

timeout-Phase :
    (k n : ℕ) (before : List ℕ) (s : Saves) → Phase n before s → Phase n before (step (timeout k) s)
unfolding step
timeout-Phase k n before s h = ground arith

saved : (s : Saves) → s.pending ≡ [] → Phase s.next s.finalized (step save s)
unfolding step
saved s h = ground arith

run-Phase :
    (es : List Event) (n : ℕ) (before : List ℕ) (s : Saves)
    → Settling es
    → Phase n before s
    → Phase n before (run es s)
unfolding run
run-Phase [] n before s k h = h
run-Phase (save ∷ es) n before s k h = absurd k
run-Phase (start ∷ es) n before s k h = absurd k
run-Phase (ack ∷ es) n before s k h = run-Phase es n before (step ack s) k (ack-Phase n before s h)
run-Phase (timeout m ∷ es) n before s k h =
    run-Phase es n before (step (timeout m) s) k (timeout-Phase m n before s h)

timeout_ends :
    (n : ℕ) (before : List ℕ) (s : Saves)
    → Phase n before s
    → let after = step (timeout n) s in
      (after.finalized ≡ n ∷ before) × (after.armed ≡ none) × (after.pending ≡ [])
unfolding step
timeout_ends n before s h = ground arith

-- A save with no earlier timer pending is summed up exactly once, by its own closure, by the time
-- its timer has fired, in whatever order acknowledgements and timeouts come.
pub save_once :
    (es : List Event) (s : Saves)
    → s.pending ≡ []
    → Settling es
    → let after = step (timeout s.next) (run es (step save s)) in
      (after.finalized ≡ s.next ∷ s.finalized) × (after.armed ≡ none) × (after.pending ≡ [])
save_once es s h k =
    timeout_ends s.next s.finalized (run es (step save s))
      (run-Phase es s.next s.finalized (step save s) k (saved s h))

-- A timer that outlives its session takes the next save's callback: with an earlier save's timer
-- still pending, the new save is summed up by the old one's closure, and its own acknowledgement
-- does nothing.
pub stale_timeout :
    (s : Saves) (n : ℕ)
    → pends n s.pending ≡ true
    → n ≢ s.next
    → let after = run (save ∷ timeout n ∷ ack ∷ []) s in
      (after.finalized ≡ n ∷ s.finalized) × (after.armed ≡ none)
unfolding run step
stale_timeout s n h ne = ground arith
