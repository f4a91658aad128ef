-- ===== src/Transform/UnionNoOverlap/Overlap.antt =====
-- Where `union_no_overlap` leaves an overlap in its result.
use aw_server_plus.Prelude.{◌≡◌, some, [], ◌∷◌, true, ◌≤ℤ◌, ◌<ℤ◌, arith, max_ℤ, min_ℤ}
use aw_server_plus.Models.{Event, calculate_endtime}
use aw_server_plus.Models.Interval.{intersects, interval}
use aw_server_plus.Models.Coverage.{covers}
use aw_server_plus.Transform.UnionNoOverlap.{union_no_overlap}

-- Where one event of the first list holds two events of the second, the later one of them is in
-- the result beside it, so that both cover the instant at which it starts.
pub union_no_overlap_overlaps :
    {D : Type 0} (e f g : Event D)
    → e.timestamp ≤ℤ f.timestamp
    → f.timestamp <ℤ calculate_endtime f
    → calculate_endtime f ≤ℤ g.timestamp
    → g.timestamp <ℤ calculate_endtime g
    → calculate_endtime g ≤ℤ calculate_endtime e
    → (union_no_overlap (e ∷ []) (f ∷ g ∷ []) ≡ some (e ∷ g ∷ []))
      × (covers g.timestamp e ≡ true)
      × (covers g.timestamp g ≡ true)
unfolding union_no_overlap calculate_endtime intersects interval max_ℤ min_ℤ covers
union_no_overlap_overlaps e f g h1 h2 h3 h4 h5 = (ground arith, ground arith, ground arith)
