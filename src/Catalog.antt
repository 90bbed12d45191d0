-- ===== src/Catalog.antt =====
-- src/catalog/catalog.cpp: the managers over the tables of the catalog, by the statements that they
-- run and the columns that they bind and read.
pub mod Sources
pub mod Entries
pub mod Records
pub mod Paths
pub mod RoundTrip
pub mod Keeps
mod Runs
