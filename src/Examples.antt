-- ===== src/Examples.antt =====
-- The theorems at concrete inputs, with concrete functions for what lies outside the source.
mod Retrying
mod Requests
mod Limits
mod Locking
mod Syncing
mod SyncTools
mod Records
mod Settings
mod Rendering
mod Serving
