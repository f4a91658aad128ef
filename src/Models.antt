-- ===== src/Models.antt =====
-- aw-models/src/event.rs: an event, over the type of its JSON data.
pub mod Json
pub mod Bucket
pub mod Interval
pub mod Coverage
use aw_server_plus.Prelude.{ℤ, ◌+ℤ◌, Option, none, Bool, ◌&&◌, not, Eq, ◌==◌, ltb_ℤ, leb_ℤ}

-- Times and durations are in nanoseconds.
pub record Event (D : Type 0) : Type 0 where
  pub id : Option ℤ
  pub timestamp : ℤ
  pub duration : ℤ
  pub data_map : D

module _ {D : Type 0} where
  unfoldable pub new : ℤ → ℤ → D → Event D
  new timestamp duration data_map = record {
    id = none;
    timestamp = timestamp;
    duration = duration;
    data_map = data_map;
  }

  unfoldable pub calculate_endtime : Event D → ℤ
  calculate_endtime e = e.timestamp +ℤ e.duration
