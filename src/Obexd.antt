-- ===== src/Obexd.antt =====
-- The server obexd, src/.
pub mod Blob
pub mod Mimetype
pub mod Service
pub mod Session
pub mod Transport
mod Tests
