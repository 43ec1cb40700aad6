-- ===== src/Cache.antt =====
-- The cache of src/cache: the modules of the server share one store.
pub mod Local
pub mod Separate
mod Tests
