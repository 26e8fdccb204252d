-- ===== src/Audit.antt =====
-- gateway/audit.py: the append-only, hash-chained audit log.
pub mod Record
pub mod Chain
pub mod Anchor
pub mod Examples
