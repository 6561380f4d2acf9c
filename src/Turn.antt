-- ===== src/Turn.antt =====
-- One turn of a game: app/game/application/use_cases/process_action.py, in parts.
pub mod Action
pub mod Changes
pub mod Settle
pub mod Inventory
pub mod Effects
pub mod Endings
pub mod Prompt
pub mod Normal
pub mod Execute
pub mod Ensures
pub mod Replay
pub mod Frames
pub mod Progress
pub mod Steps
pub mod Atomic
pub mod Refusals
pub mod Persisted
pub mod Classify
pub mod Options
pub mod Plays
