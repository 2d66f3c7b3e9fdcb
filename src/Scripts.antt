-- ===== src/Scripts.antt =====
-- The programs of scripts/, beside the API.
pub mod ConcurrencyDemo
pub mod Migrate
