-- ===== src/Registry.antt =====
-- registry/: connections to tool servers, the capabilities that they offer, and their discovery.
pub mod Rows
pub mod Store
pub mod Connections
pub mod Capabilities
pub mod Jobs
pub mod Advance
pub mod Ensures
pub mod Refresh
pub mod Publication
pub mod Calls
pub mod Examples
