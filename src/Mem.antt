-- ===== src/Mem.antt =====
-- kern/mem and kern/dyn: physical pages, page tables, the pages of the metadata area, address spaces,
-- and the allocators of small objects.
pub mod Pm
pub mod VmKern
pub mod Vm
pub mod Page
pub mod Fmtlist
pub mod Metadata
pub mod Dyn
