-- ===== src/Mmu.antt =====
-- pivos/src/memory/mmu.c and pivos/include/kernel/memory/mmu/*.h: the four-level page tables.
--
-- `Reg` has the bit layouts of entries, `Tables` the memory that holds the tables and the
-- operations on single entries, `Walk` the two walks from a table to an entry, `Destroy` the
-- release of tables and `Insert` the mapping of regions.
pub mod Reg
mod Tests
pub mod Tables
pub mod Entries
pub mod Fill
pub mod Walk
pub mod Translate
pub mod Destroy
pub mod Insert
