-- ===== src/Db.antt =====
-- scenario_pipeliner/db: the stored enumerations, the tables, and transactions on them.
pub mod Enums
pub mod Tables
pub mod Tx
pub mod Identity
pub mod Settings
pub mod Fresh
