-- ===== src/Session.antt =====
-- internal/session: the manager that owns the lobby, the engine, the store and the subscribers. Its
-- child modules follow the package's files.
pub mod Types
pub mod HostAuthority
pub mod HostOptions
pub mod Token
pub mod Members
pub mod View
pub mod Dispatch
pub mod Lifecycle
pub mod Action
pub mod Boot
