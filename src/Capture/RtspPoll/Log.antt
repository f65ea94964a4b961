-- ===== src/Capture/RtspPoll/Log.antt =====
-- The log of flags that the RTSP poll keeps.
use sensepro.Prelude.{
  ℕ, zero, suc, ◌≤◌, ◌≡◌, refl, String, Bool, true, false, not, ◌&&◌, ◌||◌, Option, none, some,
  List, [], ◌∷◌, ◌++◌, filter, take, length, length-take-le, ltb, str_eq, eq_iff, eq_refl, arith,
  inl, inr, Bool-cases, All,
}
use sensepro.Http.{Reply, replied, refused, thrown}
use sensepro.Capture.Types.{
  SessionMode, lecture, exam, workshop, WsProctor, WsProctorFlag, WsEngagement,
}
use sensepro.Capture.RtspPoll.{
  RtspPayload, Logged, Poll, Reading, additions, has_id, merge_log, log_flags, see_proctor,
  see_engagement, poll_end,
}

-- The ids of a log are pairwise different, as the keys of its rendered rows must be.
abbrev pub DistinctIds : List Logged → Type 0
DistinctIds [] = Unit
DistinctIds (l ∷ ls) = (has_id l.id ls ≡ false) × DistinctIds ls

has_id-append :
    (id : String) (xs ys : List Logged) → has_id id (xs ++ ys) ≡ (has_id id xs || has_id id ys)
has_id-append id [] ys = refl
has_id-append id (x ∷ xs) ys = ground (arith, has_id-append id xs ys)

has_id-take :
    (id : String) (n : ℕ) (xs : List Logged) → has_id id xs ≡ false → has_id id (take n xs) ≡ false
has_id-take id zero xs h = refl
has_id-take id (suc n) [] h = refl
has_id-take id (suc n) (x ∷ xs) h = ground (arith, has_id-take id n xs)

DistinctIds-take : (n : ℕ) (xs : List Logged) → DistinctIds xs → DistinctIds (take n xs)
DistinctIds-take zero xs d = tt
DistinctIds-take (suc n) [] d = tt
DistinctIds-take (suc n) (x ∷ xs) (a, d) = (has_id-take x.id n xs a, DistinctIds-take n xs d)

module _ (new : List Logged) where
  abbrev kept : List Logged → List Logged
  kept previous = filter (λ l. not (has_id l.id new)) previous

  has_id-kept :
      (id : String) (xs : List Logged) → has_id id xs ≡ false → has_id id (kept xs) ≡ false
  has_id-kept id [] h = refl
  has_id-kept id (x ∷ xs) h = ground (arith, has_id-kept id xs)

  DistinctIds-kept : (xs : List Logged) → DistinctIds xs → DistinctIds (kept xs)
  DistinctIds-kept [] d = tt
  DistinctIds-kept (x ∷ xs) (a, d) = ground (arith, has_id-kept x.id xs a, DistinctIds-kept xs d)

  not-has_id-kept :
      (id : String) (xs : List Logged) → has_id id new ≡ true → has_id id (kept xs) ≡ false
  not-has_id-kept id [] h = refl
  not-has_id-kept id (x ∷ xs) h = ground (arith, eq_iff x.id id, not-has_id-kept id xs h)

-- Lists with no id in common.
DistinctIds-append :
    (xs ys : List Logged)
    → DistinctIds xs
    → DistinctIds ys
    → All (λ l. has_id l.id ys ≡ false) xs
    → DistinctIds (xs ++ ys)
DistinctIds-append [] ys _ d _ = d
DistinctIds-append (x ∷ xs) ys (a, dx) dy (n, h) =
    (ground (arith, has_id-append x.id xs ys), DistinctIds-append xs ys dx dy h)

-- The entries that are kept have no id in common with entries of the new ones.
apart :
    (new previous xs : List Logged)
    → ((id : String) → has_id id xs ≡ true → has_id id new ≡ true)
    → All (λ l. has_id l.id (kept new previous) ≡ false) xs
apart new previous [] sub = tt
apart new previous (x ∷ xs) sub = (
  not-has_id-kept new x.id previous (sub x.id (rw (eq_refl x.id))),
  apart new previous xs (λ id h. sub id (ground (arith, h))),
)

-- A log that is shown: at most fifty entries, with different ids.
abbrev pub IsLog : List Logged → Type 0
IsLog log = (length log ≤ 50) × DistinctIds log

merge_log-IsLog :
    (new previous : List Logged)
    → DistinctIds new
    → DistinctIds previous
    → IsLog (merge_log new previous)
unfolding merge_log
merge_log-IsLog new previous dn dp =
    let all_apart = apart new previous new (λ id h. h) in
    (
      length-take-le 50 (new ++ kept new previous),
      DistinctIds-take 50 (new ++ kept new previous) (
          DistinctIds-append new (kept new previous) dn (DistinctIds-kept new previous dp)
            all_apart),
    )

-- The flags of an answer have different ids, those that the page draws for flags without one included.
abbrev pub flags_of : Option WsProctor → List WsProctorFlag
flags_of none = []
flags_of (some w) = w.flags

abbrev pub AreDistinct : Reading × Reply RtspPayload → Type 0
AreDistinct (r, replied a) = DistinctIds (additions r 0 (flags_of a.proctor))
AreDistinct (r, refused code detail) = Unit
AreDistinct (r, thrown e) = Unit

log_flags-IsLog :
    (r : Reading) (flags : List WsProctorFlag) (p : Poll)
    → DistinctIds (additions r 0 flags)
    → IsLog p.log
    → IsLog (log_flags r flags p).log
unfolding log_flags
log_flags-IsLog r flags p d (n, h) = ground (arith, merge_log-IsLog (additions r 0 flags) p.log d h)

see_engagement-log : (e : Option WsEngagement) (p : Poll) → (see_engagement e p).log ≡ p.log
unfolding see_engagement
see_engagement-log none p = refl
see_engagement-log (some e) p = refl

see_proctor-IsLog :
    (r : Reading) (mode : SessionMode) (w : Option WsProctor) (p : Poll)
    → DistinctIds (additions r 0 (flags_of w))
    → IsLog p.log
    → IsLog (see_proctor r mode w p).log
unfolding see_proctor
see_proctor-IsLog r lecture w p d h = h
see_proctor-IsLog r workshop w p d h = h
see_proctor-IsLog r exam none p d h = h
see_proctor-IsLog r exam (some w) p d h = log_flags-IsLog r w.flags _ d h

poll_end-IsLog :
    (r : Reading) (mode : SessionMode) (reply : Reply RtspPayload) (p : Poll)
    → AreDistinct (r, reply)
    → IsLog p.log
    → IsLog (poll_end r mode reply p).log
unfolding poll_end
poll_end-IsLog r mode (replied a) p d h =
    rw (see_engagement-log a.engagement _) (see_proctor-IsLog r mode a.proctor _ d h)
poll_end-IsLog r mode (refused code detail) p d h = ground arith
poll_end-IsLog r mode (thrown e) p d h = h

-- The polls of a session.
unfoldable pub poll_run : SessionMode → List (Reading × Reply RtspPayload) → Poll → Poll
poll_run mode [] p = p
poll_run mode ((r, reply) ∷ rest) p = poll_run mode rest (poll_end r mode reply p)

-- Whatever the polls answer, each with flags of different ids, the log never shows more than fifty
-- entries nor two with one id, also when a flag is reported again by a later poll.
pub poll_run-IsLog :
    (mode : SessionMode) (answers : List (Reading × Reply RtspPayload)) (p : Poll)
    → All AreDistinct answers
    → IsLog p.log
    → IsLog (poll_run mode answers p).log
unfolding poll_run
poll_run-IsLog mode [] p d h = h
poll_run-IsLog mode ((r, reply) ∷ rest) p (d, ds) h =
    poll_run-IsLog mode rest (poll_end r mode reply p) ds (poll_end-IsLog r mode reply p d h)

-- Whether the flags are logged.
abbrev is_new : Reading → List WsProctorFlag → Poll → Bool
is_new r flags p = ltb 0 (length flags) && not (str_eq (r.signature_of flags) p.signature)

log_flags-skip :
    (r : Reading) (flags : List WsProctorFlag) (p : Poll)
    → is_new r flags p ≡ false
    → log_flags r flags p ≡ p
unfolding log_flags
log_flags-skip r flags p h = rw h

is_new-log_flags :
    (r : Reading) (flags : List WsProctorFlag) (p : Poll)
    → is_new r flags (log_flags r flags p) ≡ false
unfolding log_flags
is_new-log_flags r flags p = elim (Bool-cases (is_new r flags p)) [
  | inl new ↦ rw (new, eq_refl (r.signature_of flags)) (ground arith)
  | inr old ↦ rw old old
]

-- An answer that repeats the flags of the answer before it leaves the poll's state as it is, so that new
-- ids drawn for the repeated flags log nothing twice.
pub log_flags-again :
    (r s : Reading) (flags : List WsProctorFlag) (p : Poll)
    → r.signature_of flags ≡ s.signature_of flags
    → log_flags s flags (log_flags r flags p) ≡ log_flags r flags p
log_flags-again r s flags p e =
    let q = log_flags r flags p in log_flags-skip s flags q (rw e at (is_new-log_flags r flags p))
