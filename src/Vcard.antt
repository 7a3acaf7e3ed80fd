-- ===== src/Vcard.antt =====
-- plugins/vcard.c: contacts printed as vCards, in the formats 2.1 and 3.0.
pub mod Words
pub mod Print
pub mod Escape
pub mod Qp
pub mod Fields
pub mod Contact
mod Tests
