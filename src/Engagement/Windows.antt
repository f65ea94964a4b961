-- ===== src/Engagement/Windows.antt =====
-- `latestWindow`: the newest retained window, keyed by zone.
use sensepro.Prelude.{
  String, ◌≡◌, refl, Bool, ◌&&◌, Option, none, some, List, [], ◌∷◌, ◌≢◌, filter, str_eq, eq_iff,
  arith, get_last?,
}
use sensepro.Prelude.Dict.{Dict, get, set, get-set}
use sensepro.Engagement.{ZoneAggregateRow, zones_from, latest_window}

abbrev last_or : Option ZoneAggregateRow → List ZoneAggregateRow → Option ZoneAggregateRow
last_or o [] = o
last_or o (r ∷ rows) = last_or (some r) rows

abbrev in_zone : String → String → ZoneAggregateRow → Bool
in_zone start zone r = str_eq r.window_start start && str_eq r.zone zone

get-zones_from :
    (start zone : String) (m : Dict ZoneAggregateRow) (rows : List ZoneAggregateRow)
    → get zone (zones_from start m rows) ≡ last_or (get zone m) (filter (in_zone start zone) rows)
unfolding zones_from
get-zones_from start zone m [] = refl
get-zones_from start zone m (r ∷ rows) = ground (
  arith,
  get-zones_from start zone m rows,
  get-zones_from start zone (set r.zone r m) rows,
  get-set r.zone zone r m,
  eq_iff r.zone zone,
)

last_or-eq-get_last? :
    (r : ZoneAggregateRow) (rows : List ZoneAggregateRow)
    → last_or (some r) rows ≡ get_last? (r ∷ rows)
last_or-eq-get_last? r [] = refl
last_or-eq-get_last? r (q ∷ rows) = last_or-eq-get_last? q rows

last_or-none : (rows : List ZoneAggregateRow) → last_or none rows ≡ get_last? rows
last_or-none [] = refl
last_or-none (r ∷ rows) = last_or-eq-get_last? r rows

-- With a last row of a window that starts at a non-empty text, that is the latest window, and each
-- zone maps to the last row of that window and zone, and to none where there is no such row.
pub latest_window_zones :
    (rows : List ZoneAggregateRow) (last : ZoneAggregateRow) (zone : String)
    → get_last? rows ≡ some last
    → last.window_start ≢ ""
    → ((latest_window rows).0 ≡ some last.window_start)
      × (get zone (latest_window rows).1
          ≡ get_last?
              (filter (λ r. str_eq r.window_start last.window_start && str_eq r.zone zone) rows))
unfolding latest_window get
latest_window_zones rows last zone e ne = ground (
  arith,
  eq_iff last.window_start "",
  get-zones_from last.window_start zone [] rows,
  last_or-none (filter (in_zone last.window_start zone) rows),
)
