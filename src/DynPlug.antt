-- ===== src/DynPlug.antt =====
-- crates/dynplug: the manager of native and WebAssembly plugins.
pub mod Manager
mod Tests
