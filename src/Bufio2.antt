-- ===== src/Bufio2.antt =====
-- utils/resparse/bufio2/bufio.go: buffered reading and writing.
pub mod Conn
pub mod Reader
pub mod Writer
pub mod Split
pub mod Branches
pub mod Holding
pub mod Blocks
pub mod Lines
pub mod Reading
pub mod Sending
pub mod Texts
pub mod Writing
