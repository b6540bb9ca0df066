-- ===== src/Hosting.antt =====
-- Hosted agents: app/services/hosting and app/routers/hosting.py.
pub mod Words
pub mod Patterns
pub mod Manifest
pub mod Parts
pub mod Valid
pub mod Archive
pub mod Environment
pub mod Deploy
pub mod Scaler
pub mod Endpoints
pub mod Serve
pub mod Reads
pub mod Isolated
pub mod Contained
pub mod Accepted
pub mod Races
pub mod Idle
