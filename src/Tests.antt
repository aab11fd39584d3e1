-- ===== src/Tests.antt =====
-- Examples at concrete inputs.
mod Helpers
mod Requests
mod Sending
mod Limits
mod Logs
mod Threads
mod Visits
mod Sinks
mod Documents
mod Configuration
mod Serving
mod Routes
mod Parsing
mod Pipelines
