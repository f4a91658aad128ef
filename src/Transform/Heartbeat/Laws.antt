-- ===== src/Transform/Heartbeat/Laws.antt =====
-- When two heartbeats merge, and into what.
use aw_server_plus.Prelude.{
  ◌≡◌, ◌↔◌, ℤ, sym, ap, ◌∙◌, pos, ◌+ℤ◌, ◌-ℤ◌, ◌≤ℤ◌, max_ℤ, none, some, Eq, arith, +ℤ_parts,
  -ℤ_parts, +ℤ_sub,
}
use aw_server_plus.Models.{Event, calculate_endtime}
use aw_server_plus.Transform.Heartbeat.{heartbeat}

max_stays : (a b : ℤ) → max_ℤ (max_ℤ a b) b ≡ max_ℤ a b
unfolding max_ℤ
max_stays a b = ground arith

module _ {D : Type 0} ⦃eq : Eq D⦄ where
  -- `beat` belongs to `last`: the same data, a start in `last` or within the pulse time after it, and
  -- a later of the two ends that is not before the start of `last`, which fails only for negative
  -- durations.
  pub record Continues (last beat : Event D) (pulsetime_ns : ℤ) : Type 0 where
    pub same_data : beat.data_map ≡ last.data_map
    pub not_before : last.timestamp ≤ℤ beat.timestamp
    pub in_pulse : beat.timestamp ≤ℤ calculate_endtime last +ℤ pulsetime_ns
    pub ends_after : last.timestamp ≤ℤ max_ℤ (calculate_endtime last) (calculate_endtime beat)

  abbrev merged_at : Event D → ℤ → Event D
  merged_at last endtime = record {
    id = none;
    timestamp = last.timestamp;
    duration = endtime -ℤ last.timestamp;
    data_map = last.data_map;
  }

  abbrev pub merged : Event D → Event D → Event D
  merged last beat = merged_at last (max_ℤ (calculate_endtime last) (calculate_endtime beat))

  heartbeat-of_Continues :
      (last beat : Event D) (p : ℤ)
      → Continues last beat p
      → heartbeat last beat p ≡ some (merged last beat)
  unfolding heartbeat calculate_endtime max_ℤ
  heartbeat-of_Continues last beat p c = ground (
    arith,
    (eq.beq_iff beat.data_map last.data_map).1 c.same_data,
    -ℤ_parts (last.timestamp +ℤ last.duration) last.timestamp,
    -ℤ_parts (beat.timestamp +ℤ beat.duration) last.timestamp,
  )

  Continues-of_heartbeat :
      (last beat m : Event D) (p : ℤ) → heartbeat last beat p ≡ some m → Continues last beat p
  unfolding heartbeat calculate_endtime max_ℤ
  Continues-of_heartbeat last beat m p h = ground (
    arith,
    (eq.beq_iff beat.data_map last.data_map).0,
    -ℤ_parts (last.timestamp +ℤ last.duration) last.timestamp,
    -ℤ_parts (beat.timestamp +ℤ beat.duration) last.timestamp,
  )

  -- `heartbeat` merges exactly the heartbeats that have the data of the last event, start not before it
  -- and at most the pulse time after its end, and for which the later of the two ends is not before
  -- the last one's start, as it can be where durations are negative. The result is the event from the
  -- last one's start to the later of the two ends, with its data and without an id.
  pub heartbeat_iff :
      (last beat m : Event D) (pulsetime_ns : ℤ)
      → (heartbeat last beat pulsetime_ns ≡ some m)
        ↔ (Continues last beat pulsetime_ns × (m ≡ merged last beat))
  heartbeat_iff last beat m p = (
    λ h.
        let c = Continues-of_heartbeat last beat m p h in
        (c, cc (h, heartbeat-of_Continues last beat p c)),
    λ (c, e). heartbeat-of_Continues last beat p c ∙ ap some (sym e),
  )

  calculate_endtime-merged :
      (last beat : Event D)
      → calculate_endtime (merged last beat)
        ≡ max_ℤ (calculate_endtime last) (calculate_endtime beat)
  unfolding calculate_endtime
  calculate_endtime-merged last beat = +ℤ_sub last.timestamp _

  max-in_pulse :
      (last beat : Event D) (p : ℤ)
      → pos 0 ≤ℤ p
      → pos 0 ≤ℤ beat.duration
      → beat.timestamp ≤ℤ max_ℤ (calculate_endtime last) (calculate_endtime beat) +ℤ p
  unfolding max_ℤ calculate_endtime
  max-in_pulse last beat p hp hd = ground (
    arith,
    +ℤ_parts beat.timestamp beat.duration,
    +ℤ_parts (last.timestamp +ℤ last.duration) p,
    +ℤ_parts (beat.timestamp +ℤ beat.duration) p,
  )

  -- A heartbeat of non-negative duration that was merged with a non-negative pulse time merges into
  -- the result again, which it leaves as it is: a repeated delivery changes nothing.
  pub heartbeat_repeated :
      (last beat m : Event D) (pulsetime_ns : ℤ)
      → pos 0 ≤ℤ pulsetime_ns
      → pos 0 ≤ℤ beat.duration
      → heartbeat last beat pulsetime_ns ≡ some m
      → heartbeat m beat pulsetime_ns ≡ some m
  heartbeat_repeated last beat m p hp hd h =
      let (c, e) = (heartbeat_iff last beat m p).0 h in
      let ends = calculate_endtime-merged last beat in
      rw e (
        (heartbeat_iff (merged last beat) beat (merged last beat) p).1 (
          record {
            same_data = c.same_data;
            not_before = c.not_before;
            in_pulse = rw ends (max-in_pulse last beat p hp hd);
            ends_after =
                rw (ends, max_stays (calculate_endtime last) (calculate_endtime beat)) c.ends_after;
          },
          ap (merged_at last)
              (sym (ap (λ z. max_ℤ z (calculate_endtime beat)) ends ∙ max_stays _ _)),
        ))
