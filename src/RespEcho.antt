-- ===== src/RespEcho.antt =====
-- utils/respecho/RedSHandle: what the server side writes back to its clients.
pub mod Writer
pub mod Send
pub mod Written
