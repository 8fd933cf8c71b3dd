-- ===== src/Mmu/Destroy.antt =====
-- mmu.c: `mmu_destroy_entry` and `memory_mmu_destroy_table`.
--
-- `table_stack` is the list of its used cells, the top one first; `current_entry` points to the
-- top. The loop runs on fuel, and `none` is too little of it or a fault in `s_pages_dealloc`.
pub mod Release
pub mod Loop
pub mod Rounds
pub mod Refine
pub mod Overrun
pub mod Table
mod Tests
use pi_vos.Prelude.{
  ℕ, zero, suc, ◌+◌, ◌/◌, ◌&&◌, none, some, List, [], ◌∷◌, ◌==◌, if◌then◌else◌, bit_and,
}
use pi_vos.Word.{u32}
use pi_vos.Mmu.Reg.{
  empty_entry, block_entry, entries_per_table, page_size, size_of_level_region,
  are_block_entries_supported,
}
use pi_vos.Mmu.Tables.{
  read_entry, write_entry, type_of, get_subtable, get_address_from_page_entry,
  get_address_from_block_entry,
}
use pi_vos.Mmu.Walk.{PageSource, EntryInfo, M, pure, ◌>>=◌, ◌>>◌, reads, changes}

module _ (source : PageSource) where
  -- `s_pages_dealloc(addr, number)`
  unfoldable pub pages_dealloc : ℕ → ℕ → M source (Unit {0})
  pages_dealloc addr number m = elim (source.pages_dealloc addr number m.pages) [
    | none ↦ none
    | some pages ↦ some (tt, record m { pages = pages })
  ]

  unfoldable pub destroy_page_entry : ℕ → M source (Unit {0})
  unfolding pages_dealloc
  destroy_page_entry entry = pages_dealloc (get_address_from_page_entry entry) 1

  unfoldable pub destroy_block_entry : ℕ → ℕ → M source (Unit {0})
  unfolding pages_dealloc
  destroy_block_entry entry level =
      pages_dealloc (get_address_from_block_entry entry level)
        (u32 (size_of_level_region level / page_size))

  unfoldable pub dealloc_table : ℕ → M source (Unit {0})
  unfolding pages_dealloc
  dealloc_table mmu_table = pages_dealloc mmu_table 1

  -- `current_entry->idx++`
  abbrev next_idx : EntryInfo → EntryInfo
  next_idx info = record info { idx = u32 (info.idx + 1) }

  -- What a round does with the entry that the top of the stack points to: the new stack.
  unfoldable pub visit : EntryInfo → List EntryInfo → M source (List EntryInfo)
  unfolding destroy_page_entry destroy_block_entry
  visit top below = do
    entry ← reads (λ mem. read_entry mem top.table top.idx)
    if bit_and entry 0b01 == 0
        then pure (next_idx top ∷ below)
        else if bit_and entry 0b10 == 0
        then destroy_block_entry entry top.level >> pure (next_idx top ∷ below)
        else if top.level == 3
        then destroy_page_entry entry >> pure (next_idx top ∷ below)
        else reads λ mem.
          record { table = get_subtable mem top.table top.idx; idx = 0; level = top.level + 1 }
          ∷ next_idx top
          ∷ below

  -- The end of a round: a table that has been walked through is released.
  unfoldable pub leave : List EntryInfo → M source (List EntryInfo)
  unfolding dealloc_table
  leave [] = pure []
  leave (top ∷ below) =
      if top.idx == entries_per_table
      then dealloc_table top.table >> pure below
      else pure (top ∷ below)

  -- `while (table_stack_depth > 0)`
  unfoldable pub destroy_loop : ℕ → List EntryInfo → M source (Unit {0})
  destroy_loop fuel [] = pure tt
  destroy_loop zero (top ∷ below) = λ m. none
  destroy_loop (suc fuel) (top ∷ below) = do
    visited ← visit top below
    rest ← leave visited
    destroy_loop fuel rest

  unfoldable pub destroy_entry : ℕ → ℕ → ℕ → ℕ → M source (Unit {0})
  unfolding destroy_page_entry destroy_block_entry
  destroy_entry fuel mmu_table idx level = do
    entry ← reads (λ mem. read_entry mem mmu_table idx)
    let clear : M source (Unit {0}) = changes (λ mem. write_entry mem mmu_table idx empty_entry)
    if level == 3
        then destroy_page_entry entry >> clear
        else if are_block_entries_supported level && (type_of entry == block_entry)
        then destroy_block_entry entry level >> clear
        else (do
          subtable ← reads (λ mem. get_subtable mem mmu_table idx)
          destroy_loop fuel (record { table = subtable; idx = 0; level = level + 1 } ∷ [])
          clear)

  -- `memory_mmu_destroy_table` from index `idx` on, with the rounds that are left.
  unfoldable pub destroy_entries : ℕ → ℕ → ℕ → ℕ → M source (Unit {0})
  destroy_entries fuel zero level0_table idx = pure tt
  destroy_entries fuel (suc left) level0_table idx = do
    entry ← reads (λ mem. read_entry mem level0_table idx)
    if entry == empty_entry then pure tt else destroy_entry fuel level0_table idx 0
    destroy_entries fuel left level0_table (idx + 1)

  unfoldable pub destroy_table : ℕ → ℕ → M source (Unit {0})
  unfolding pages_dealloc
  destroy_table fuel level0_table = do
    destroy_entries fuel entries_per_table level0_table 0
    pages_dealloc level0_table 1
