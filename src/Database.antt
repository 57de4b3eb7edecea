-- ===== src/Database.antt =====
-- The package pigate/pkg/database: its records, the tables behind them, and their managers.
pub mod Models
pub mod Table
pub mod Sql
pub mod ClockText
pub mod Credentials
pub mod Sqlite
pub mod Postgres
pub mod Managers
pub mod Logger
pub mod Setup
pub mod Decimal
pub mod Dynamo
pub mod Updater
