-- ===== src/Id.antt =====
-- flare-core-base/src/id: identifier generation.
pub mod Snowflake
