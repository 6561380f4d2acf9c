-- ===== src/Examples.antt =====
-- Concrete runs at which the theorems' conditions hold.
pub mod Setup
mod Rules
mod Worlds
mod Turns
mod Games
mod Redis
mod Signed
mod SignIns
mod Recalls
mod Finales
mod Pictures
mod Routed
mod Embeddings
mod Histories
