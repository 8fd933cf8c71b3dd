-- ===== src/Mmu/Insert.antt =====
-- mmu.c: `mmu_map_units` and `memory_mmu_insert`.
--
-- `get_phys_space` is the callback that gives the physical space of a request, a command that may
-- use the page source. The `while` loop of `mmu_map_units` runs on fuel.
pub mod Pages
pub mod Mapped
pub mod Translated
mod Tests
use pi_vos.Prelude.{
  ℕ, zero, suc, ◌+◌, ◌*◌, ◌/◌, min, not, ◌&&◌, none, ◌==◌, ltb, leb, if◌then◌else◌,
}
use pi_vos.Word.{u32, u64, sub64, sub32, align_up64}
use pi_vos.Mmu.Reg.{empty_entry, table_entry, entries_per_table, page_size, size_of_level_region}
use pi_vos.Mmu.Tables.{
  Memory, read_entry, type_of, get_subtable, is_same_memory_type, override_memory_type,
  create_page_entry, create_block_entry,
}
use pi_vos.Mmu.Walk.{
  PageSource, EntryInfo, M, pure, ◌>>=◌, ◌>>◌, reads, changes, traverse_and_alloc_tables,
}

-- `struct mmu_phys_space_request`
pub record PhysSpaceRequest : Type 0 where
  pub virt_addr : ℕ
  pub page_count : ℕ
  pub align : ℕ

-- `mmu_create_memory_entry`: table, idx, level, address, memory type
abbrev pub CreateEntry : Type 0
CreateEntry = Memory → ℕ → ℕ → ℕ → ℕ → ℕ → Memory

module _ (source : PageSource) (get_phys_space : PhysSpaceRequest → M source ℕ) where
  -- Entry `l3_idx` of the level 3 table that stands where a block is to be mapped.
  unfoldable pub map_l3_entry : ℕ → ℕ → ℕ → ℕ → M source (Unit {0})
  map_l3_entry pages l3_idx virt_addr memory_type = do
    l3_entry ← reads (λ mem. read_entry mem pages l3_idx)
    if type_of l3_entry == empty_entry
        then (do
          address ← get_phys_space (record { virt_addr = virt_addr; page_count = 1; align = 1 })
          changes (λ mem. create_page_entry mem pages l3_idx 3 address memory_type))
        else if is_same_memory_type l3_entry memory_type
        then pure tt
        else changes (λ mem. override_memory_type mem pages l3_idx memory_type)

  -- The loop over that table from `l3_idx` on, with the rounds that are left.
  unfoldable pub map_l3_entries : ℕ → ℕ → ℕ → ℕ → ℕ → M source (Unit {0})
  unfolding map_l3_entry
  map_l3_entries zero pages l3_idx virt_addr memory_type = pure tt
  map_l3_entries (suc left) pages l3_idx virt_addr memory_type = do
    map_l3_entry pages l3_idx virt_addr memory_type
    map_l3_entries left pages (l3_idx + 1) (u64 (virt_addr + page_size)) memory_type

  module _ (create_memory_entry : CreateEntry) (destination_level memory_type : ℕ) where
    abbrev unit_size : ℕ
    unit_size = size_of_level_region destination_level

    abbrev pages_for_unit : ℕ
    pages_for_unit = u32 (unit_size / page_size)

    -- A unit whose entry is not empty. In the case of a level 3 table the code names it by
    -- `table_data.idx`, the index of the first unit of the round, and not by `unit_number`.
    unfoldable pub map_taken : EntryInfo → ℕ → ℕ → ℕ → M source (Unit {0})
    unfolding map_l3_entries
    map_taken table_data unit_number requested_addr entry =
        if not (table_data.level == 3) && (type_of entry == table_entry)
        then (do
          pages ← reads (λ mem. get_subtable mem table_data.table table_data.idx)
          map_l3_entries entries_per_table pages 0 requested_addr memory_type)
        else if is_same_memory_type entry memory_type
        then pure tt
        else changes (λ mem. override_memory_type mem table_data.table unit_number memory_type)

    unfoldable pub map_unit : EntryInfo → ℕ → ℕ → M source (Unit {0})
    map_unit table_data unit_number requested_addr = do
      entry ← reads (λ mem. read_entry mem table_data.table unit_number)
      if entry == empty_entry
          then (do
            address ← get_phys_space (record {
              virt_addr = requested_addr;
              page_count = pages_for_unit;
              align = pages_for_unit;
            })
            changes λ mem.
                create_memory_entry mem table_data.table unit_number destination_level address
                  memory_type)
          else map_taken table_data unit_number requested_addr entry

    -- The `for` loop over the units of one table, with the rounds that are left.
    unfoldable pub map_table_units : ℕ → EntryInfo → ℕ → ℕ → M source (Unit {0})
    unfolding map_unit
    map_table_units zero table_data unit_number requested_addr = pure tt
    map_table_units (suc left) table_data unit_number requested_addr = do
      map_unit table_data unit_number requested_addr
      map_table_units left table_data (unit_number + 1) (u64 (requested_addr + unit_size))

    -- `while (count > 0)`; `none` is too little fuel, too.
    unfoldable pub map_loop : ℕ → ℕ → ℕ → ℕ → ℕ → ℕ → M source (Unit {0})
    map_loop zero mmu_table level address offset count =
        if ltb 0 count then (λ m. none) else pure tt
    map_loop (suc fuel) mmu_table level address offset count =
        if ltb 0 count
        then (do
          table_data ←
              traverse_and_alloc_tables source mmu_table level (u64 (address + offset))
                destination_level
          let unit_count = u32 (min (sub64 entries_per_table table_data.idx) count)
          map_table_units unit_count table_data table_data.idx (u64 (address + offset))
          map_loop fuel mmu_table level address (u64 (offset + unit_count * unit_size))
              (sub32 count unit_count))
        else pure tt

    -- Every round maps at least one unit where the index lies in the table, so `count` rounds are
    -- enough.
    unfoldable pub map_units : ℕ → ℕ → ℕ → ℕ → M source (Unit {0})
    unfolding map_loop
    map_units mmu_table level address count = map_loop count mmu_table level address 0 count

  -- `if (count_temp > 0) mmu_map_units(...)`
  unfoldable pub map_some : CreateEntry → ℕ → ℕ → ℕ → ℕ → ℕ → ℕ → M source (Unit {0})
  unfolding map_units
  map_some create destination_level memory_type mmu_table level address count =
      if ltb 0 count
      then map_units create destination_level memory_type mmu_table level address count
      else pure tt

  -- The three calls for a region that spans a block, with their counts as the code computes them:
  -- the first count is a number of bytes.
  unfoldable pub insert_blocks : ℕ → ℕ → ℕ → ℕ → ℕ → M source (Unit {0})
  unfolding map_some
  insert_blocks mmu_table level address size memory_type =
      let block_size = size_of_level_region 2 in
      let block_address = align_up64 address block_size in
      let head = u32 (min size (sub64 block_address address)) in
      let offset1 = u64 (head * page_size) in
      let blocks = u32 (sub64 size offset1 / block_size) in
      let offset2 = u64 (offset1 + blocks * block_size) in
      let tail = u32 (sub64 size offset2 / page_size) in
      do
        map_some create_page_entry 3 memory_type mmu_table level address head
        map_some create_block_entry 2 memory_type mmu_table level (u64 (address + offset1)) blocks
        map_some create_page_entry 3 memory_type mmu_table level (u64 (address + offset2)) tail

  unfoldable pub insert : ℕ → ℕ → ℕ → ℕ → ℕ → M source (Unit {0})
  unfolding insert_blocks map_units
  insert mmu_table level address size memory_type =
      let block_size = size_of_level_region 2 in
      let block_address = align_up64 address block_size in
      if leb (u64 (sub64 block_address address + block_size)) size
      then insert_blocks mmu_table level address size memory_type
      else map_units create_page_entry 3 memory_type mmu_table level address
          (u32 (size / page_size))
