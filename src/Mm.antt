-- ===== src/Mm.antt =====
-- mm/memory.c: physical pages, page tables, copy on write and page faults.
pub mod Pages
pub mod Tables
pub mod Faults
