-- ===== src/Mmu/Entries.antt =====
-- What the entries that mmu.c builds read back as.
use pi_vos.Prelude.{ℕ, ◌+◌, ◌*◌, ◌/◌, ◌%◌, ◌^◌, ◌<◌, ◌≡◌, ◌≢◌, arith, true, ◌⊎◌, inl, inr}
use pi_vos.Word.{to_kernel_space, kernel_space_mask}
use pi_vos.Word.Bits.{bit_and_low_mask, bit_or_disjoint}
use pi_vos.Mmu.Reg.{
  block_entry, table_entry, page_entry, block_bits1, block_fields1, block_bits2, block_fields2,
  page_bits, page_fields, common_bits, common_fields, table_bits, table_fields, attributes_bits,
  attributes_fields, size_of_level_region,
}
use pi_vos.Mmu.Tables.{
  type_of, is_same_memory_type, get_address_from_block_entry, get_address_from_page_entry,
  get_next_level_table_from_table_entry, new_table_entry, new_attributes, new_block_entry,
  new_page_entry, Memory, read_entry, write_entry, override_memory_type,
}

pub type_of_lem : (entry : ℕ) → type_of entry ≡ entry % 4
type_of_lem entry = bit_and_low_mask 2 entry

-- The unions lose nothing: the fields of any 64-bit entry give its bits back.
pub block_bits1-fields : (w : ℕ) → w < 2 ^ 64 → block_bits1 (block_fields1 w) ≡ w
unfolding block_bits1 block_fields1
block_bits1-fields w h = omega arith

pub block_bits2-fields : (w : ℕ) → w < 2 ^ 64 → block_bits2 (block_fields2 w) ≡ w
unfolding block_bits2 block_fields2
block_bits2-fields w h = omega arith

pub page_bits-fields : (w : ℕ) → w < 2 ^ 64 → page_bits (page_fields w) ≡ w
unfolding page_bits page_fields
page_bits-fields w h = omega arith

pub table_bits-fields : (w : ℕ) → w < 2 ^ 64 → table_bits (table_fields w) ≡ w
unfolding table_bits table_fields
table_bits-fields w h = omega arith

new_attributes_lem : (t : ℕ) → new_attributes t ≡ t % 8 + 16 + 256
unfolding new_attributes attributes_bits
new_attributes_lem t = omega arith

-- A new page entry has the type of a page, the memory type that it is given, and the page's
-- address, for an address below 64 GB.
pub new_page_entry_lem :
    (address memory_type : ℕ)
    → address < 2 ^ 36
    → memory_type < 8
    → (type_of (new_page_entry address memory_type) ≡ page_entry)
      × (get_address_from_page_entry (new_page_entry address memory_type) ≡ address / 4096 * 4096)
      × (is_same_memory_type (new_page_entry address memory_type) memory_type ≡ true)
      × (new_page_entry address memory_type < 2 ^ 64)
unfolding new_page_entry page_bits page_fields get_address_from_page_entry is_same_memory_type
    common_fields attributes_fields
new_page_entry_lem address memory_type ha ht = (
  rw type_of_lem (omega (arith, new_attributes_lem memory_type)),
  omega (arith, new_attributes_lem memory_type),
  ground (arith, new_attributes_lem memory_type),
  omega (arith, new_attributes_lem memory_type),
)

-- A new page entry holds the whole page's address in its bits, for an address of 48 bits, but the code
-- reads the address back from it without the bits of 64 GB and above.
pub new_page_entry_wraps :
    (address memory_type : ℕ)
    → address < 2 ^ 48
    → memory_type < 8
    → let entry = new_page_entry address memory_type in
      (type_of entry ≡ page_entry)
      × ((page_fields entry).output_address * 4096 ≡ address / 4096 * 4096)
      × (get_address_from_page_entry entry ≡ address % 2 ^ 36 / 4096 * 4096)
unfolding new_page_entry page_bits page_fields get_address_from_page_entry
new_page_entry_wraps address memory_type ha ht = (
  rw type_of_lem (omega (arith, new_attributes_lem memory_type)),
  omega (arith, new_attributes_lem memory_type),
  omega (arith, new_attributes_lem memory_type),
)

-- The address that a new page entry holds, whatever address of a word it is made for.
pub new_page_entry_bits :
    (address memory_type : ℕ)
    → memory_type < 8
    → (type_of (new_page_entry address memory_type) ≡ page_entry)
      × ((page_fields (new_page_entry address memory_type)).output_address
          ≡ address / 4096 % 2 ^ 36)
unfolding new_page_entry page_bits page_fields
new_page_entry_bits address memory_type ht = (
  rw type_of_lem (omega (arith, new_attributes_lem memory_type)),
  omega (arith, new_attributes_lem memory_type),
)

-- A new block entry at level 1 or 2 has the type of a block, its memory type, and the address of
-- the block, for an address of 48 bits.
pub new_block_entry_lem :
    (level address memory_type : ℕ)
    → (level ≡ 1) ⊎ (level ≡ 2)
    → address < 2 ^ 48
    → memory_type < 8
    → let entry = new_block_entry level address memory_type in
      (type_of entry ≡ block_entry)
      × (get_address_from_block_entry entry level
          ≡ address / size_of_level_region level * size_of_level_region level)
      × (is_same_memory_type entry memory_type ≡ true)
      × (entry < 2 ^ 64)
unfolding new_block_entry block_bits1 block_fields1 block_bits2 block_fields2
    get_address_from_block_entry is_same_memory_type common_fields attributes_fields
new_block_entry_lem level address memory_type (inl one) ha ht = rw one (
  rw type_of_lem (omega (arith, new_attributes_lem memory_type)),
  omega (arith, new_attributes_lem memory_type),
  ground (arith, new_attributes_lem memory_type),
  omega (arith, new_attributes_lem memory_type),
)
new_block_entry_lem level address memory_type (inr two) ha ht = rw two (
  rw type_of_lem (omega (arith, new_attributes_lem memory_type)),
  omega (arith, new_attributes_lem memory_type),
  ground (arith, new_attributes_lem memory_type),
  omega (arith, new_attributes_lem memory_type),
)

-- The kernel's pointer to a table whose physical address has 48 bits.
pub to_kernel_space_lem :
    (addr : ℕ) → addr < 2 ^ 48 → to_kernel_space addr ≡ addr + kernel_space_mask
unfolding to_kernel_space
to_kernel_space_lem addr h = bit_or_disjoint 48 addr 0xFFFF h

-- A new table entry has the type of a table, and leads to the table that it was made for, given by
-- the kernel's pointer to a page.
pub new_table_entry_lem :
    (page : ℕ)
    → page < 2 ^ 24
    → let entry = new_table_entry (page * 4096 + kernel_space_mask) in
      (type_of entry ≡ table_entry)
      × (to_kernel_space (get_next_level_table_from_table_entry entry)
          ≡ page * 4096 + kernel_space_mask)
unfolding new_table_entry table_bits table_fields get_next_level_table_from_table_entry
new_table_entry_lem page h = (
  rw type_of_lem (omega arith),
  let e : get_next_level_table_from_table_entry (new_table_entry (page * 4096 + kernel_space_mask))
          ≡ page * 4096 =
        omega arith in
      rw e (to_kernel_space_lem (page * 4096) (omega arith)),
)

-- `mmu_override_memory_type` gives the entry the memory type, keeps its type and the bits above, and
-- leaves any other word `addr` of memory as it was, for an entry of 64 bits.
pub override_memory_type_lem :
    (mem : Memory) (table idx memory_type addr : ℕ)
    → memory_type < 8
    → read_entry mem table idx < 2 ^ 64
    → addr ≢ table + 8 * idx
    → let old = read_entry mem table idx in
      let out = override_memory_type mem table idx memory_type in
      (is_same_memory_type (read_entry out table idx) memory_type ≡ true)
      × (read_entry out table idx % 4 ≡ old % 4)
      × (read_entry out table idx / 32 ≡ old / 32)
      × (out addr ≡ mem addr)
unfolding override_memory_type write_entry is_same_memory_type common_fields common_bits
    attributes_fields attributes_bits
override_memory_type_lem mem table idx memory_type addr ht hw ne =
    (ground arith, ground arith, ground arith, ground arith)
