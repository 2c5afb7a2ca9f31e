-- ===== src/CognitiveHead.antt =====
-- The cognitive head of a project (cognitive_head/): its state is folded from the event stream by
-- four reducers, compiled into a head, and cached in snapshots.
pub mod States
pub mod Tasks
pub mod Reducers
pub mod Head
pub mod Payload
pub mod Snapshot
pub mod Engine
mod Tests
