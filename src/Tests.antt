-- ===== src/Tests.antt =====
-- Runs of the code, and the theorems at concrete inputs.
mod Vectors
mod Data
mod Cursors
mod Walks
mod Requests
mod Pages
mod Settings
mod QueryLogs
mod HttpWalks
mod Serving
mod Loading
mod Programs
mod Journeys
mod Utilities
