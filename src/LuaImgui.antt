-- ===== src/LuaImgui.antt =====
-- crates/lua-imgui: the commands that a Lua script records, replayed while a frame is drawn.
pub mod Commands
mod Tests
