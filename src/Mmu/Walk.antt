-- ===== src/Mmu/Walk.antt =====
-- mmu.c: allocation of tables, the split of a block, and the two walks from a table down to the
-- entry of an address.
--
-- The callbacks `s_pages_alloc` and `s_pages_dealloc` that `memory_mmu_init` stores are the
-- parameter `source`, whose state `pages` is carried along; `none` is a fault in a callback.
pub mod Split
pub mod Steps
pub mod Builds
use pi_vos.Prelude.{
  ℕ, zero, suc, ◌+◌, ◌-◌, ◌*◌, ◌/◌, ◌%◌, Bool, Option, none, some, ◌==◌, if◌then◌else◌, bit_and,
}
use pi_vos.Word.{u8, u16, u32, u64, to_kernel_space, shl_int}
use pi_vos.Mmu.Reg.{
  table_entry, type_mask, block_fields1, block_fields2, attributes_fields, entries_per_table,
  size_of_level_region, are_block_entries_supported,
}
use pi_vos.Mmu.Tables.{
  Memory, read_entry, write_entry, clear_table, type_of, create_table_entry, create_block_entry,
  create_page_entry, get_subtable,
}

pub record PageSource : Type 1 where
  pub State : Type 0
  pub pages_alloc : ℕ → ℕ → State → Option (ℕ × State)
  pub pages_dealloc : ℕ → ℕ → State → Option State

pub record Machine (source : PageSource) : Type 0 where
  pub mem : Memory
  pub pages : source.State

-- `struct mmu_entry_info`
pub record EntryInfo : Type 0 where
  pub table : ℕ
  pub idx : ℕ
  pub level : ℕ

-- Commands over the machine.
abbrev pub M : PageSource → Type 0 → Type 0
M source A = Machine source → Option (A × Machine source)

module _ {source : PageSource} where
  abbrev pub pure : {A : Type 0} → A → M source A
  pure a m = some (a, m)

  infixl 5 ◌>>=◌ ◌>>◌
  abbrev pub ◌>>=◌ : {A B : Type 0} → M source A → (A → M source B) → M source B
  ◌>>=◌ c k m = elim (c m) [ none ↦ none | some (a, m') ↦ k a m' ]

  abbrev pub ◌>>◌ : {B : Type 0} → M source (Unit {0}) → M source B → M source B
  c >> k = c >>= λ _. k

  -- reads of the tables, and changes to them
  abbrev pub reads : {A : Type 0} → (Memory → A) → M source A
  reads f m = some (f m.mem, m)

  abbrev pub changes : (Memory → Memory) → M source (Unit {0})
  changes f m = some (tt, record m { mem = f m.mem })

-- The memory type and the base address that a block's fields give, 0 at other levels.
unfoldable pub block_memory_type : ℕ → ℕ → ℕ
block_memory_type entry level =
    if level == 1
    then (attributes_fields (u16 (block_fields1 entry).lower_block_attributes)).attr_indx
    else if level == 2
    then (attributes_fields (u16 (block_fields2 entry).lower_block_attributes)).attr_indx
    else 0

-- The base address that the split computes, without the casts of `mmu_get_address_from_block_entry`.
unfoldable pub split_base : ℕ → ℕ → ℕ
unfolding shl_int
split_base entry level =
    if level == 1
    then shl_int (block_fields1 entry).output_address 30
    else if level == 2
    then shl_int (block_fields2 entry).output_address 21
    else 0

-- The `for` loops of the split from `unit_number` on, with the rounds that are left.
module _ (table level base memory_type : ℕ) where
  abbrev unit_address : ℕ → ℕ
  unit_address unit_number = u64 (base + unit_number * size_of_level_region level)

  unfoldable pub fill_blocks : ℕ → ℕ → Memory → Memory
  fill_blocks zero unit_number mem = mem
  fill_blocks (suc left) unit_number mem =
      fill_blocks left (unit_number + 1)
        (create_block_entry mem table unit_number level (unit_address unit_number) memory_type)

  unfoldable pub fill_pages : ℕ → ℕ → Memory → Memory
  fill_pages zero unit_number mem = mem
  fill_pages (suc left) unit_number mem =
      fill_pages left (unit_number + 1)
        (create_page_entry mem table unit_number level (unit_address unit_number) memory_type)

-- What `mmu_split_block_entry` does to memory once it has its new, empty table.
unfoldable pub split_into : ℕ → ℕ → ℕ → ℕ → Memory → Memory
unfolding split_base
split_into table idx level new_table mem =
    let entry = read_entry mem table idx in
    let memory_type = block_memory_type entry level in
    let base = split_base entry level in
    let linked = create_table_entry mem table idx new_table in
    if are_block_entries_supported (level + 1)
    then fill_blocks new_table (level + 1) base memory_type entries_per_table 0 linked
    else fill_pages new_table (level + 1) base memory_type entries_per_table 0 linked

-- `mmu_find`: the loop from `level` on with the rounds that are left to level 3.
unfoldable pub find_loop : ℕ → Memory → ℕ → ℕ → ℕ → EntryInfo
find_loop zero mem table level address = record {
  table = table;
  idx = u32 (address / size_of_level_region level);
  level = level;
}
find_loop (suc left) mem table level address =
    let idx = u32 (address / size_of_level_region level) in
    let rest = address % size_of_level_region level in
    let down = find_loop left mem (get_subtable mem table idx) (level + 1) rest in
    let stop : EntryInfo = record {
      table = table;
      idx = u32 (rest / size_of_level_region level);
      level = level;
    } in
    if type_of (read_entry mem table idx) == table_entry then down else stop

unfoldable pub find : Memory → ℕ → ℕ → ℕ → EntryInfo
find mem table level address = find_loop (3 - level) mem table level address

module _ (source : PageSource) where
  unfoldable pub create_table : M source ℕ
  create_table m = elim (source.pages_alloc 1 1 m.pages) [
    | none ↦ none
    | some (addr, pages) ↦
        (let table = to_kernel_space addr in
          some (table, record { mem = clear_table m.mem table; pages = pages }))
  ]

  unfoldable pub split_block_entry : ℕ → ℕ → ℕ → M source ℕ
  unfolding create_table
  split_block_entry table idx level = do
    temp_table ← create_table
    changes (split_into table idx level temp_table)
    pure temp_table

  -- The branch of the walk for an empty or invalid entry.
  unfoldable pub create_subtable : ℕ → ℕ → M source ℕ
  unfolding create_table
  create_subtable table idx = do
    new_table ← create_table
    changes (λ mem. create_table_entry mem table idx new_table)
    pure new_table

  -- One step down from the entry `idx` of `table`, whatever stands there.
  unfoldable pub step_down : ℕ → ℕ → ℕ → M source ℕ
  unfolding create_subtable split_block_entry
  step_down table idx level = do
    entry ← reads (λ mem. read_entry mem table idx)
    if bit_and (type_of entry) 0b01 == 0
        then create_subtable table idx
        else if bit_and (type_of entry) 0b10 == 0
        then split_block_entry table idx level
        else reads (λ mem. get_subtable mem table idx)

  -- `mmu_traverse_and_alloc_tables` with the levels that are left to the destination.
  unfoldable pub traverse : ℕ → ℕ → ℕ → ℕ → M source EntryInfo
  traverse zero table level address =
      pure
        (record { table = table; idx = u32 (address / size_of_level_region level); level = level })
  traverse (suc left) table level address = do
    let idx = u32 (address / size_of_level_region level)
    down ← step_down table idx level
    traverse left down (level + 1) (address % size_of_level_region level)

  unfoldable pub traverse_and_alloc_tables : ℕ → ℕ → ℕ → ℕ → M source EntryInfo
  unfolding traverse
  traverse_and_alloc_tables table level address destination_level =
      traverse (destination_level - level) table level address
