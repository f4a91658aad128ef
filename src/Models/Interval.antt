-- ===== src/Models/Interval.antt =====
-- aw-models/src/timeinterval.rs: intervals of time, without their text form.
use aw_server_plus.Prelude.{
  ℤ, ◌-ℤ◌, ltb_ℤ, min_ℤ, max_ℤ, Option, none, some, Bool, true, false, if◌then◌else◌,
}
use aw_server_plus.Models.{Event, calculate_endtime}

pub record TimeInterval : Type 0 where
  pub start : ℤ
  pub end : ℤ

unfoldable pub duration : TimeInterval → ℤ
duration p = p.end -ℤ p.start

unfoldable pub gap : TimeInterval → TimeInterval → Option TimeInterval
gap p q =
    if ltb_ℤ p.end q.start
    then some (record { start = p.end; end = q.start })
    else if ltb_ℤ q.end p.start
    then some (record { start = q.end; end = p.start })
    else none

unfoldable pub union : TimeInterval → TimeInterval → Option TimeInterval
unfolding gap
union p q = elim (gap p q) [
  | some _ ↦ none
  | none ↦ some (record { start = min_ℤ p.start q.start; end = max_ℤ p.end q.end })
]

unfoldable pub intersection : TimeInterval → TimeInterval → Option TimeInterval
intersection p q =
    let last_start = max_ℤ p.start q.start in
    let first_end = min_ℤ p.end q.end in
    if ltb_ℤ last_start first_end
    then some (record { start = last_start; end = first_end })
    else none

unfoldable pub intersects : TimeInterval → TimeInterval → Bool
unfolding intersection
intersects p q = elim (intersection p q) [ some _ ↦ true | none ↦ false ]

-- `Event::interval`, and `From<&Event>`, which builds the same interval.
unfoldable pub interval : {D : Type 0} → Event D → TimeInterval
interval e = record { start = e.timestamp; end = calculate_endtime e }
