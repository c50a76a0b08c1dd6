-- ===== src/Mem.antt =====
-- Physical memory and page tables, kernel/mem.c.
pub mod Buddy
pub mod Paging
