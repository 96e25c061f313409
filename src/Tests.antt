-- ===== src/Tests.antt =====
-- Runs on concrete inputs.
mod Joins
mod Scans
mod Indexes
mod RangeScans
mod Statements
mod RoundTrips
mod Catalogs
mod Schemas
mod Calls
mod Transactions
mod Updates
mod Aggregates
mod Guards
mod Plans
mod SelfScans
