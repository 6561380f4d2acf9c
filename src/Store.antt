-- ===== src/Store.antt =====
-- What the use cases read and write: the database through the repositories of
-- app/game/infrastructure/repositories, the Redis cache of cache_service.py, and the outside world.
-- `db` is what the open transaction sees and `committed` what it would fall back to.
pub mod Monad
pub mod Services
pub mod Tables
pub mod Rows
