-- ===== src/Bootstrap.antt =====
-- internal/bootstrap and cmd/importer: the configuration of the application.
pub mod Options
pub mod Clients
pub mod Exchange
pub mod Builder
pub mod Subscription
pub mod App
pub mod Topics
pub mod Main
