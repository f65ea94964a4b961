-- ===== src/Capture/Messages/Tracks.antt =====
-- The overlay's tracks after a result.
use sensepro.Prelude.{
  ℕ, ◌+◌, ◌-◌, ◌≤◌, ◌≡◌, refl, Bool, true, false, ◌||◌, ◌⊎◌, List, [], ◌∷◌, arith, any, filter, leb,
  ◌==◌, All,
}
use sensepro.Capture.Types.{Box, WsFace, TrackVis}
use sensepro.Capture.Page.{track_face, track_faces, update_tracks}

abbrev pub tracked : ℕ → List TrackVis → Bool
tracked id ts = any (λ t. t.track_id == id) ts

abbrev pub DistinctTracks : List TrackVis → Type 0
DistinctTracks [] = Unit
DistinctTracks (t ∷ ts) = (tracked t.track_id ts ≡ false) × DistinctTracks ts

module _ (interpolate : Box → Box → ℕ → Box) (now : ℕ) where
  tracked-track_face :
      (id : ℕ) (f : WsFace) (ts : List TrackVis)
      → tracked id (track_face interpolate now f ts) ≡ (f.track_id == id || tracked id ts)
  unfolding track_face
  tracked-track_face id f [] = ground arith
  tracked-track_face id f (t ∷ ts) = ground (arith, tracked-track_face id f ts)

  track_face-Distinct :
      (f : WsFace) (ts : List TrackVis)
      → DistinctTracks ts
      → DistinctTracks (track_face interpolate now f ts)
  unfolding track_face
  track_face-Distinct f [] d = (refl, tt)
  track_face-Distinct f (t ∷ ts) (n, d) =
      ground (arith, tracked-track_face t.track_id f ts, track_face-Distinct f ts d)

  track_faces-Distinct :
      (fs : List WsFace) (ts : List TrackVis)
      → DistinctTracks ts
      → DistinctTracks (track_faces interpolate now fs ts)
  unfolding track_faces
  track_faces-Distinct [] ts d = d
  track_faces-Distinct (f ∷ fs) ts d =
      track_faces-Distinct fs (track_face interpolate now f ts) (track_face-Distinct f ts d)

  tracked-track_faces :
      (id : ℕ) (fs : List WsFace) (ts : List TrackVis)
      → tracked id (track_faces interpolate now fs ts)
        ≡ (any (λ f. f.track_id == id) fs || tracked id ts)
  unfolding track_faces
  tracked-track_faces id [] ts = refl
  tracked-track_faces id (f ∷ fs) ts = ground (
    arith,
    tracked-track_faces id fs (track_face interpolate now f ts),
    tracked-track_face id f ts,
  )

tracked-filter :
    (q : TrackVis → Bool) (id : ℕ) (ts : List TrackVis)
    → tracked id ts ≡ false
    → tracked id (filter q ts) ≡ false
tracked-filter q id [] h = refl
tracked-filter q id (t ∷ ts) h = ground (arith, tracked-filter q id ts)

filter-Distinct :
    (q : TrackVis → Bool) (ts : List TrackVis) → DistinctTracks ts → DistinctTracks (filter q ts)
filter-Distinct q [] d = tt
filter-Distinct q (t ∷ ts) (n, d) =
    ground (arith, tracked-filter q t.track_id ts n, filter-Distinct q ts d)

module _ (faces : List WsFace) (now : ℕ) where
  abbrev keep : TrackVis → Bool
  keep t = any (λ f. f.track_id == t.track_id) faces || leb (now - t.last_seen_ts) 800

  -- A kept track was sent in this result, or seen at most 800 ms ago.
  abbrev pub Fresh : TrackVis → Type 0
  Fresh t = (any (λ f. f.track_id == t.track_id) faces ≡ true) ⊎ (now ≤ t.last_seen_ts + 800)

  filter-Fresh : (ts : List TrackVis) → All Fresh (filter keep ts)
  filter-Fresh [] = tt
  filter-Fresh (t ∷ ts) = ground (arith, filter-Fresh ts)

  any_same :
      (id : ℕ) (t : TrackVis)
      → (t.track_id == id) ≡ true
      → any (λ f. f.track_id == id) faces ≡ true
      → keep t ≡ true
  any_same id t e h = let p : t.track_id ≡ id = ground arith in rw p (ground arith)

  tracked-filter-keep :
      (id : ℕ) (ts : List TrackVis)
      → any (λ f. f.track_id == id) faces ≡ true
      → tracked id ts ≡ true
      → tracked id (filter keep ts) ≡ true
  tracked-filter-keep id [] s h = cc
  tracked-filter-keep id (t ∷ ts) s h = ground (arith, any_same id t, tracked-filter-keep id ts s)

-- From distinct track ids, after a result the ids are distinct, a face of the result has a track,
-- and every track was sent in this result or seen in the last 800 ms.
pub update_tracks_lem :
    (interpolate : Box → Box → ℕ → Box) (now id : ℕ) (faces : List WsFace) (ts : List TrackVis)
    → DistinctTracks ts
    → any (λ f. f.track_id == id) faces ≡ true
    → DistinctTracks (update_tracks interpolate now faces ts)
      × (tracked id (update_tracks interpolate now faces ts) ≡ true)
      × All (Fresh faces now) (update_tracks interpolate now faces ts)
unfolding update_tracks
update_tracks_lem interpolate now id faces ts d h =
    let us = track_faces interpolate now faces ts in
    (
      filter-Distinct (keep faces now) us (track_faces-Distinct interpolate now faces ts d),
      tracked-filter-keep faces now id us h
          (ground (arith, tracked-track_faces interpolate now id faces ts)),
      filter-Fresh faces now us,
    )
