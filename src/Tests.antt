-- ===== src/Tests.antt =====
-- Runs of the definitions at concrete inputs, and the witnesses of the theorems.
mod Base
mod Sql
mod Sessions
mod Execution
mod Catalog
mod Completion
mod Requests
mod Cells
mod Browsing
mod Interleavings
mod Commands
