-- ===== src/App.antt =====
-- The application of evmd/app.go and the files beside it, as far as they are its own and not the SDK's
-- wiring.
pub mod Settings
pub mod Modules
pub mod Genesis
pub mod Lifecycle
pub mod Upgrade
