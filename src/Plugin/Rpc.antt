-- ===== src/Plugin/Rpc.antt =====
-- crates/go-plugin/src/{rpc_codec,rpc_client,rpc_server}.rs: calls of a plugin over one yamux stream.
pub mod Stream
pub mod Codec
pub mod Client
pub mod Server
pub mod Ends
pub mod Answers
pub mod Replies
pub mod Contract
pub mod Unread
