-- ===== src/Capture/Feed.antt =====
-- routes/capture.tsx: the token of the RTSP feed with `refreshFeedToken`, and the presence that is read from the
-- database at the start of a lecture and as it is inserted. The replies are arguments.
pub mod Refreshes
mod Tests
use sensepro.Prelude.{
  ℕ, String, ◌≡◌, refl, Bool, true, false, ◌||◌, Option, none, some, List, [], ◌∷◌, any, str_eq,
  if◌then◌else◌, arith,
}
use sensepro.Prelude.Dict.{Dict}
use sensepro.Prelude.Upsert.{contains, contains-add}
use sensepro.LiveRoster.{AttendanceState, is_present}
use sensepro.Capture.Types.{Via, camera, qr, NameEntry}
use sensepro.Capture.Roster.{Marks, mark_student_present}

-- The texts of `setPermError`.
pub data FeedError : Type 0 where
  not_opened not_refreshed same_credential : FeedError

pub record Feed : Type 0 where
  pub token : Option String
  pub attempted : Bool
  pub in_flight : Bool
  pub problem : Option FeedError

-- The image has loaded.
unfoldable pub feed_loaded : Feed → Feed
feed_loaded f = record f { attempted = false }

-- The socket has been opened with a token.
unfoldable pub feed_opened : String → Feed → Feed
feed_opened token f = record f { attempted = false; token = some token }

-- `refreshFeedToken` up to its request: the feed, and whether it asks for a token.
unfoldable pub refresh_begin : Feed → Feed × Bool
refresh_begin f =
    if f.in_flight
    then (f, false)
    else if f.attempted
    then (record f { problem = some not_opened }, false)
    else (record f { attempted = true; in_flight = true }, true)

abbrev is_same : String → Option String → Bool
is_same token none = false
is_same token (some t) = str_eq token t

-- After the request; `shown` is the token of the feed when it failed. An empty token is falsy.
unfoldable pub refresh_end : Option String → Option String → Feed → Feed
refresh_end shown none f = record f { problem = some not_refreshed; in_flight = false }
refresh_end shown (some token) f =
    if str_eq token ""
    then record f { problem = some not_refreshed; in_flight = false }
    else if is_same token shown
    then record f { problem = some same_credential; in_flight = false }
    else record f { token = some token; in_flight = false }

-- A row of presence_intervals.
pub record PresenceRow : Type 0 where
  pub student_id : String
  pub state : AttendanceState
  pub via : Option Via

abbrev via_or : Via → Option Via → Via
via_or d none = d
via_or d (some via) = via

module _ (names : Dict NameEntry) (now : ℕ) where
  -- The rows that the query finds, all of them present.
  unfoldable pub sync_presence : List PresenceRow → Marks → Marks
  sync_presence [] m = m
  sync_presence (row ∷ rows) m =
      sync_presence rows (mark_student_present names now row.student_id (via_or camera row.via) m)

  -- A row that the channel reports as inserted.
  unfoldable pub on_insert : PresenceRow → Marks → Marks
  on_insert row m =
      if is_present row.state
      then mark_student_present names now row.student_id (via_or qr row.via) m
      else m

  mark-attended :
      (k sid : String) (via : Via) (m : Marks)
      → contains (mark_student_present names now sid via m).attended k
        ≡ (contains m.attended k || str_eq sid k)
  unfolding mark_student_present
  mark-attended k sid via m = contains-add sid k m.attended

  -- After the presence of a session has been read, exactly those students are attended who were before or
  -- whom a row names.
  sync_presence-attended :
      (k : String) (rows : List PresenceRow) (m : Marks)
      → contains (sync_presence rows m).attended k
        ≡ (contains m.attended k || any (λ r. str_eq r.student_id k) rows)
  unfolding sync_presence
  sync_presence-attended k [] m = ground arith
  sync_presence-attended k (row ∷ rows) m =
      let via = via_or camera row.via in
      ground (
        arith,
        sync_presence-attended k rows (mark_student_present names now row.student_id via m),
        mark-attended k row.student_id via m,
      )
