-- ===== src/Mmu/Tables.antt =====
-- mmu.c: the memory that the tables stand in, and the operations on single entries.
--
-- A table is 512 words of 64 bits from its address on. `Memory` gives the word at each byte
-- address that is a multiple of 8; a table's address is the kernel's pointer to it.
use pi_vos.Prelude.{ℕ, ◌+◌, ◌*◌, Bool, ◌==◌, ltb, leb, ◌&&◌, bit_and, if◌then◌else◌}
use pi_vos.Word.{u16, to_kernel_space, shl36, shl64, shr}
use pi_vos.Mmu.Reg.{
  page_size, type_mask, block_bits1, block_fields1, block_bits2, block_fields2, page_bits,
  page_fields, common_bits, common_fields, table_bits, table_fields, attributes_bits,
  attributes_fields,
}

abbrev pub Memory : Type 0
Memory = ℕ → ℕ

-- `table[idx]`
abbrev pub read_entry : Memory → ℕ → ℕ → ℕ
read_entry mem table idx = mem (table + 8 * idx)

-- `table[idx] = value`
unfoldable pub write_entry : Memory → ℕ → ℕ → ℕ → Memory
write_entry mem table idx value addr = if addr == table + 8 * idx then value else mem addr

-- `byteset(table, 0, MMU_PAGE_SIZE)`
unfoldable pub clear_table : Memory → ℕ → Memory
clear_table mem table addr = if leb table addr && ltb addr (table + page_size) then 0 else mem addr

-- `entry & MMU_TYPE_MASK`
abbrev pub type_of : ℕ → ℕ
type_of entry = bit_and entry type_mask

-- `memory_type` is a `uint8_t`.
unfoldable pub is_same_memory_type : ℕ → ℕ → Bool
is_same_memory_type entry memory_type =
    (attributes_fields (u16 (common_fields entry).lower_attributes)).attr_indx == memory_type

unfoldable pub override_memory_type : Memory → ℕ → ℕ → ℕ → Memory
override_memory_type mem table idx memory_type =
    let entry = common_fields (read_entry mem table idx) in
    let lower_attr = attributes_fields (u16 entry.lower_attributes) in
    let changed = attributes_bits (record lower_attr { attr_indx = memory_type }) in
    write_entry mem table idx (common_bits (record entry { lower_attributes = changed }))

unfoldable pub get_address_from_block_entry : ℕ → ℕ → ℕ
get_address_from_block_entry entry level =
    if level == 1
    then shl64 (block_fields1 entry).output_address 30
    else if level == 2
    then shl64 (block_fields2 entry).output_address 21
    else 0

-- The shifts in these two are on a bit-field of 36 bits without a cast: an address of 64 GB or more
-- loses its upper bits.
unfoldable pub get_address_from_page_entry : ℕ → ℕ
get_address_from_page_entry entry = shl36 (page_fields entry).output_address 12

unfoldable pub get_next_level_table_from_table_entry : ℕ → ℕ
get_next_level_table_from_table_entry entry = shl36 (table_fields entry).next_level_table_address 12

-- The bits of a new entry. What an initializer does not name is zero.
unfoldable pub new_table_entry : ℕ → ℕ
new_table_entry next_level_table = table_bits (record {
  valid = 1;
  descriptor = 1;
  ignored0 = 0;
  next_level_table_address = shr next_level_table 12;
  res1 = 0;
  ignored1 = 0;
  res2 = 0;
})

-- `{.AttrIndx = memory_type, .AF = 1, .AP = 0b01}`
unfoldable pub new_attributes : ℕ → ℕ
new_attributes memory_type =
    attributes_bits (record { attr_indx = memory_type; ns = 0; ap = 0b01; sh = 0; af = 1; ng = 0 })

unfoldable pub new_block_entry : ℕ → ℕ → ℕ → ℕ
new_block_entry level address memory_type =
    if level == 1
    then block_bits1 (record {
      valid = 1;
      descriptor = 0;
      lower_block_attributes = new_attributes memory_type;
      res0 = 0;
      output_address = shr address 30;
      res1 = 0;
      upper_block_attributes = 0;
    })
    else block_bits2 (record {
      valid = 1;
      descriptor = 0;
      lower_block_attributes = new_attributes memory_type;
      res0 = 0;
      output_address = shr address 21;
      res1 = 0;
      upper_block_attributes = 0;
    })

unfoldable pub new_page_entry : ℕ → ℕ → ℕ
new_page_entry address memory_type = page_bits (record {
  valid = 1;
  descriptor = 1;
  lower_attributes = new_attributes memory_type;
  output_address = shr address 12;
  res0 = 0;
  upper_attributes = 0;
})

-- `level` matters only to the release build's empty `ASSERT`s in the first and the third.
unfoldable pub create_table_entry : Memory → ℕ → ℕ → ℕ → Memory
create_table_entry mem table idx next_level_table =
    write_entry mem table idx (new_table_entry next_level_table)

unfoldable pub create_block_entry : Memory → ℕ → ℕ → ℕ → ℕ → ℕ → Memory
create_block_entry mem table idx level address memory_type =
    write_entry mem table idx (new_block_entry level address memory_type)

unfoldable pub create_page_entry : Memory → ℕ → ℕ → ℕ → ℕ → ℕ → Memory
create_page_entry mem table idx level address memory_type =
    write_entry mem table idx (new_page_entry address memory_type)

-- The pointer is made accessible from the kernel.
unfoldable pub get_subtable : Memory → ℕ → ℕ → ℕ
get_subtable mem table idx =
    to_kernel_space (get_next_level_table_from_table_entry (read_entry mem table idx))
