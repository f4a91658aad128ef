-- ===== src/Transform.antt =====
-- aw-transform/src: the transforms of event lists.
pub mod Sort
pub mod Heartbeat
pub mod Chunk
pub mod Keyvals
pub mod FindBucket
pub mod UnionNoOverlap
pub mod PeriodUnion
pub mod Flood
pub mod FilterPeriod
