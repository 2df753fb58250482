-- ===== src/Api.antt =====
-- api/: the handlers of the HTTP API, and who may call them.
pub mod Request
pub mod Meta
pub mod Purge
pub mod Scope
pub mod Quarantine
pub mod AuthCache
pub mod Routers
pub mod Attributes
pub mod Usage
pub mod Download
pub mod Upload
pub mod Hosts
