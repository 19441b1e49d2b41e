-- ===== src/Tests.antt =====
-- Runs and instances of the theorems at concrete inputs.
mod Markers
mod Migrations
mod Transactions
mod Runs
mod Types
mod Urls
mod Rows
mod Clocks
mod Queries
mod Shapes
mod Values
