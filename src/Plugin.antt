-- ===== src/Plugin.antt =====
-- crates/go-plugin: plugins as processes of their own.
pub mod Protocol
pub mod Server
pub mod Broker
pub mod Mux
pub mod Rpc
pub mod Client
pub mod Secure
pub mod Info
mod Tests
mod ConnectionTests
mod RpcTests
mod ClientTests
