-- ===== src/Router.antt =====
-- The routing policy of the repository's `router` package.
pub mod Routes
pub mod Entitlements
pub mod Models
pub mod Policy
pub mod Resolve
pub mod Auto
pub mod Application
pub mod Selected
pub mod Roundtrip
