-- ===== src/Mmu/Translate.antt =====
-- `memory_mmu_va_to_pa` and what `mmu_find` gives it.
use pi_vos.Prelude.{
  ℕ, suc, ◌+◌, ◌/◌, ◌%◌, ◌^◌, ◌<◌, ◌≡◌, ◌≢◌, refl, arith, false, ◌==◌, ◌∙◌, ap, if◌then◌else◌,
  bit_and,
}
use pi_vos.Word.{u32, u64, to_kernel_space, kernel_space_mask}
use pi_vos.Mmu.Reg.{
  page_size, page_entry, block_entry, table_entry, size_of_level_region, page_fields,
}
use pi_vos.Mmu.Tables.{
  Memory, read_entry, type_of, get_address_from_page_entry, get_address_from_block_entry,
  get_subtable,
}
use pi_vos.Mmu.Entries.{to_kernel_space_lem}
use pi_vos.Mmu.Walk.{find, find_loop}

-- `NULL` is 0.
unfoldable pub va_to_pa : Memory → ℕ → ℕ → ℕ
va_to_pa mem level0_table va =
    let search_result = find mem level0_table 0 va in
    let entry = read_entry mem search_result.table search_result.idx in
    let type = type_of entry in
    let region = size_of_level_region search_result.level in
    if bit_and type page_entry == 0
    then (if bit_and type block_entry == 0
        then 0
        else to_kernel_space
            (u64 (get_address_from_block_entry entry search_result.level + va % region)))
    else to_kernel_space (u64 (get_address_from_page_entry entry + va % page_size))

-- The index of an address in the tables of levels 0 to 3.
abbrev pub idx0 : ℕ → ℕ
idx0 va = va / size_of_level_region 0

abbrev pub idx1 : ℕ → ℕ
idx1 va = va % size_of_level_region 0 / size_of_level_region 1

abbrev pub idx2 : ℕ → ℕ
idx2 va = va % size_of_level_region 0 % size_of_level_region 1 / size_of_level_region 2

abbrev pub idx3 : ℕ → ℕ
idx3 va =
    va
    % size_of_level_region 0
    % size_of_level_region 1
    % size_of_level_region 2
    / size_of_level_region 3

-- In `mem` the walk for `va` goes from the level 0 table `t0` through table entries to the level 2
-- table `t2`.
pub record WalksTo2 (mem : Memory) (t0 va t2 : ℕ) : Type 0 where
  pub t1 : ℕ
  pub entry0 : type_of (read_entry mem t0 (idx0 va)) ≡ table_entry
  pub sub0 : get_subtable mem t0 (idx0 va) ≡ t1
  pub entry1 : type_of (read_entry mem t1 (idx1 va)) ≡ table_entry
  pub sub1 : get_subtable mem t1 (idx1 va) ≡ t2

-- ... and on to the level 3 table `t3`
pub record WalksTo3 (mem : Memory) (t0 va t3 : ℕ) : Type 0 where
  pub t2 : ℕ
  pub above : WalksTo2 mem t0 va t2
  pub entry2 : type_of (read_entry mem t2 (idx2 va)) ≡ table_entry
  pub sub2 : get_subtable mem t2 (idx2 va) ≡ t3

find_loop-table :
    (left : ℕ) (mem : Memory) (table level address : ℕ) {idx next : ℕ}
    → u32 (address / size_of_level_region level) ≡ idx
    → type_of (read_entry mem table idx) ≡ table_entry
    → get_subtable mem table idx ≡ next
    → find_loop (suc left) mem table level address
      ≡ find_loop left mem next (level + 1) (address % size_of_level_region level)
unfolding find_loop
find_loop-table left mem table level address i e s = rw (i, e, s) refl

find_loop-stop :
    (left : ℕ) (mem : Memory) (table level address : ℕ) {idx : ℕ}
    → u32 (address / size_of_level_region level) ≡ idx
    → type_of (read_entry mem table idx) ≢ table_entry
    → find_loop (suc left) mem table level address ≡ record {
      table = table;
      idx = u32 (address % size_of_level_region level / size_of_level_region level);
      level = level;
    }
unfolding find_loop
find_loop-stop left mem table level address {idx} i e =
    let no : (type_of (read_entry mem table idx) == table_entry) ≡ false = ground (arith, e) in
    rw (i, no) refl

-- A page's address and an offset in it do not overflow.
page_address :
    (entry va : ℕ)
    → u64 (get_address_from_page_entry entry + va % page_size)
      ≡ get_address_from_page_entry entry + va % page_size
unfolding get_address_from_page_entry page_fields
page_address entry va = omega arith

page_address-lt : (entry va : ℕ) → get_address_from_page_entry entry + va % page_size < 2 ^ 48
unfolding get_address_from_page_entry page_fields
page_address-lt entry va = omega arith

module _ {mem : Memory} {t0 va : ℕ} (small : va < 2 ^ 48) where
  find-level2 :
      {t2 : ℕ}
      → WalksTo2 mem t0 va t2
      → find mem t0 0 va
        ≡ find_loop 1 mem t2 2 (va % size_of_level_region 0 % size_of_level_region 1)
  unfolding find
  find-level2 w =
      find_loop-table 2 mem t0 0 va (omega arith) w.entry0 w.sub0
      ∙ find_loop-table 1 mem w.t1 1 (va % size_of_level_region 0) (omega arith) w.entry1 w.sub1

  -- Through three levels of table entries `mmu_find` reaches the entry of the address in the level
  -- 3 table.
  find-level3 :
      {t3 : ℕ}
      → WalksTo3 mem t0 va t3
      → find mem t0 0 va ≡ record { table = t3; idx = idx3 va; level = 3 }
  unfolding find_loop
  find-level3 {t3} w =
      find-level2 w.above
      ∙ (find_loop-table 0 mem w.t2 2 _ (omega arith) w.entry2 w.sub2
          ∙ ap (λ (i : ℕ). record { table = t3; idx = i; level = 3 }) (omega arith))

  -- Where the walk stops at level 2, at a block or an empty entry, `mmu_find` gives the index 0,
  -- whatever the index of the address is.
  pub find-level2_stop :
      {t2 : ℕ}
      → WalksTo2 mem t0 va t2
      → type_of (read_entry mem t2 (idx2 va)) ≢ table_entry
      → find mem t0 0 va ≡ record { table = t2; idx = 0; level = 2 }
  find-level2_stop {t2} w ne =
      find-level2 w
      ∙ (find_loop-stop 0 mem t2 2 _ (omega arith) ne
          ∙ ap (λ (i : ℕ). record { table = t2; idx = i; level = 2 }) (omega arith))

  -- A page that the walk reaches at level 3 is translated to its address, plus the offset of `va`
  -- in the page, in the kernel's half.
  pub va_to_pa-page :
      {t3 : ℕ}
      → WalksTo3 mem t0 va t3
      → type_of (read_entry mem t3 (idx3 va)) ≡ page_entry
      → va_to_pa mem t0 va
        ≡ get_address_from_page_entry (read_entry mem t3 (idx3 va))
          + va % page_size
          + kernel_space_mask
  unfolding va_to_pa
  va_to_pa-page {t3} w e =
      let entry = read_entry mem t3 (idx3 va) in
      rw (find-level3 w, e, page_address entry va)
        (to_kernel_space_lem _ (page_address-lt entry va))

  -- Where the level 3 entry is empty the result is NULL.
  pub va_to_pa-empty :
      {t3 : ℕ}
      → WalksTo3 mem t0 va t3
      → type_of (read_entry mem t3 (idx3 va)) ≡ 0
      → va_to_pa mem t0 va ≡ 0
  unfolding va_to_pa
  va_to_pa-empty w e = rw (find-level3 w, e) refl

  -- Where the walk stops at level 2 and entry 0 of that table is a block, the result is made from
  -- entry 0, its bits read as a page's, and the offset of `va` in a page of 4096 bytes, whatever
  -- stands at the entry of `va`.
  pub va_to_pa-block :
      {t2 : ℕ}
      → WalksTo2 mem t0 va t2
      → type_of (read_entry mem t2 (idx2 va)) ≢ table_entry
      → type_of (read_entry mem t2 0) ≡ block_entry
      → va_to_pa mem t0 va
        ≡ get_address_from_page_entry (read_entry mem t2 0) + va % page_size + kernel_space_mask
  unfolding va_to_pa
  va_to_pa-block {t2} w ne e =
      let entry = read_entry mem t2 0 in
      rw (find-level2_stop w ne, e, page_address entry va)
        (to_kernel_space_lem _ (page_address-lt entry va))
