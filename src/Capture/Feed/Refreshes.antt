-- ===== src/Capture/Feed/Refreshes.antt =====
-- How often the feed of routes/capture.tsx asks for a new token.
use sensepro.Prelude.{
  ℕ, suc, ◌+◌, ◌≡◌, ◌≤◌, refl, String, true, false, Option, none, some, arith, if◌then◌else◌,
}
use sensepro.Capture.Feed.{Feed, feed_loaded, feed_opened, refresh_begin, refresh_end}

-- The feed, the requests for a token so far, those on their way, and how often the feed has loaded or been
-- opened.
pub record System : Type 0 where
  pub feed : Feed
  pub asked : ℕ
  pub on_way : ℕ
  pub shown : ℕ

pub data Step (s : System) : System → Type 0 where
  loads : Step s (record s { feed = feed_loaded s.feed; shown = suc s.shown })
  opens :
      (token : String) → Step s (record s { feed = feed_opened token s.feed; shown = suc s.shown })
  asks :
      {f : Feed}
      → refresh_begin s.feed ≡ (f, true)
      → Step s (record s { feed = f; asked = suc s.asked; on_way = suc s.on_way })
  refuses : {f : Feed} → refresh_begin s.feed ≡ (f, false) → Step s (record s { feed = f })
  answers :
      (n : ℕ) (token answer : Option String)
      → s.on_way ≡ suc n
      → Step s (record s { feed = refresh_end token answer s.feed; on_way = n })

pub data Reach : System → Type 0 where
  start : Reach (record {
    feed = record { token = none; attempted = false; in_flight = false; problem = none };
    asked = 0;
    on_way = 0;
    shown = 0;
  })
  later : {r s : System} → Reach r → Step r s → Reach s

abbrev pub IsLimited : System → Type 0
IsLimited s =
    (s.on_way ≡ (if s.feed.in_flight then 1 else 0))
    × (s.asked + (if s.feed.attempted then 0 else 1) ≤ suc s.shown)

Step-IsLimited : {r s : System} → Step r s → IsLimited r → IsLimited s
unfolding feed_loaded feed_opened refresh_begin refresh_end
Step-IsLimited {r} loads h = ground arith
Step-IsLimited {r} (opens token) h = ground arith
Step-IsLimited {r} (asks e) h = ground arith
Step-IsLimited {r} (refuses e) h = ground arith
Step-IsLimited {r} (answers n token none e) h = ground arith
Step-IsLimited {r} (answers n token (some t) e) h = ground arith

-- However often the feed fails, at most one request for a token is on its way, which is when the feed is marked
-- so, and the page has asked for a token at most once more than the feed has loaded or been opened: a feed
-- that keeps failing does not ask again and again.
pub Reach-IsLimited : {s : System} → Reach s → IsLimited s
Reach-IsLimited start = (refl, omega arith)
Reach-IsLimited (later r st) = Step-IsLimited st (Reach-IsLimited r)
