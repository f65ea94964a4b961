-- ===== src/Capture/Page.antt =====
-- apps/web/src/routes/capture.tsx: the messages of the capture socket, the state of the page that they
-- change, and the overlay's tracks. `interpolate` is the eased position of a box after so many
-- milliseconds, float arithmetic that only the overlay reads.
use sensepro.Prelude.{
  ℕ, ◌-◌, String, Bool, false, not, ◌&&◌, ◌||◌, Option, none, some, List, [], ◌∷◌, if◌then◌else◌,
  str_eq, filter, any, leb, ◌==◌,
}
use sensepro.Prelude.Dict.{Dict}
use sensepro.Capture.Types.{
  Box, WsFace, WsPresentRow, SessionRosterEntry, WsProctorDet, WsEngagement, EngagementWindowStatus,
  WsResult, ProctorAlert, ProctorLiveState, TrackVis, Toast,
}

pub data Message : Type 0 where
  session_ended : Bool → Option String → Option EngagementWindowStatus → Message
  error : Bool → Option String → Message  -- `fatal === true`, `detail`
  result : WsResult → Message
  other : Message

pub data Effect : Type 0 where
  acknowledge : Bool → Option String → Option EngagementWindowStatus → Effect
  close_socket : ℕ → Effect

pub record Page : Type 0 where
  pub inflight : ℕ
  pub end_ack : Bool  -- a callback waits for the end of the session
  pub pipeline_error : Option String
  pub stale : Bool
  pub sent : ℕ × ℕ
  pub last_result_at : ℕ
  pub visible_faces : ℕ
  pub tracks : List TrackVis
  pub rows : List WsPresentRow
  pub first_seen : Dict ℕ
  pub roster : Dict SessionRosterEntry
  pub attended : List String
  pub toasts : List Toast
  pub exam_mode : Bool
  pub dets : List WsProctorDet
  pub dets_at : ℕ
  pub proctor_live : ProctorLiveState
  pub proctor_flags : List ProctorAlert
  pub engagement : Option WsEngagement

-- A missing or empty id is falsy.
abbrev pub known : Option String → Bool
known none = false
known (some id) = not (str_eq id "")

module _ (interpolate : Box → Box → ℕ → Box) (now : ℕ) where
  abbrev pub new_track : WsFace → TrackVis
  new_track f = record {
    prev = f.box;
    target = f.box;
    target_ts = now;
    appear_ts = now;
    label_appear_ts = now;
    student_id = f.student_id;
    score = f.score;
    track_id = f.track_id;
    last_seen_ts = now;
  }

  abbrev pub move_track : WsFace → TrackVis → TrackVis
  move_track f cur = record cur {
    prev = interpolate cur.prev cur.target (now - cur.target_ts);
    target = f.box;
    target_ts = now;
    last_seen_ts = now;
    label_appear_ts =
        if not (known cur.student_id) && known f.student_id then now else cur.label_appear_ts;
    student_id = f.student_id;
    score = f.score;
  }

  unfoldable pub track_face : WsFace → List TrackVis → List TrackVis
  track_face f [] = new_track f ∷ []
  track_face f (t ∷ ts) =
      if t.track_id == f.track_id then move_track f t ∷ ts else t ∷ track_face f ts

  unfoldable pub track_faces : List WsFace → List TrackVis → List TrackVis
  track_faces [] ts = ts
  track_faces (f ∷ fs) ts = track_faces fs (track_face f ts)

  abbrev pub is_seen : List WsFace → TrackVis → Bool
  is_seen faces t = any (λ f. f.track_id == t.track_id) faces

  -- The faces of a result, then the tracks that the server has not sent for 800 ms are dropped.
  unfoldable pub update_tracks : List WsFace → List TrackVis → List TrackVis
  unfolding track_face track_faces
  update_tracks faces ts =
      filter (λ t. is_seen faces t || leb (now - t.last_seen_ts) 800) (track_faces faces ts)
