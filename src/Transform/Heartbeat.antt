-- ===== src/Transform/Heartbeat.antt =====
-- aw-transform/src/heartbeat.rs. The pulse time is the integer of nanoseconds that the code rounds
-- its floating point argument to.
pub mod Laws
use aw_server_plus.Prelude.{
  ℤ, pos, ◌+ℤ◌, ◌-ℤ◌, ltb_ℤ, Option, none, some, Eq, ◌==◌, not, if◌then◌else◌,
}
use aw_server_plus.Models.{Event, calculate_endtime}

module _ {D : Type 0} ⦃eq : Eq D⦄ where
  unfoldable pub heartbeat : Event D → Event D → ℤ → Option (Event D)
  unfolding calculate_endtime
  heartbeat last_event beat pulsetime_ns =
      if not (beat.data_map == last_event.data_map)
      then none
      else let last_event_endtime = calculate_endtime last_event in
        let heartbeat_endtime = calculate_endtime beat in
        let last_endtime_allowed = last_event_endtime +ℤ pulsetime_ns in
        if ltb_ℤ beat.timestamp last_event.timestamp
        then none
        else if ltb_ℤ last_endtime_allowed beat.timestamp
        then none
        else let starttime =
            if ltb_ℤ beat.timestamp last_event.timestamp
            then beat.timestamp
            else last_event.timestamp in
          let endtime =
            if ltb_ℤ heartbeat_endtime last_event_endtime
            then last_event_endtime
            else heartbeat_endtime in
          let duration = endtime -ℤ starttime in
          if ltb_ℤ duration (pos 0)
          then none
          else some (record {
            id = none;
            timestamp = starttime;
            duration = duration;
            data_map = last_event.data_map;
          })
