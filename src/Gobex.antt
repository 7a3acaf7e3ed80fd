-- ===== src/Gobex.antt =====
-- The OBEX protocol library, gobex/.
pub mod Defs
pub mod Ascii
pub mod Header
pub mod Packet
pub mod Obex
pub mod Transfer
