-- ===== src/Mmu/Tests.antt =====
-- Translation tables at four pages of the kernel's half, and entries for them.
use pi_vos.Prelude.{
  ◌-◌, ◌/◌, ◌^◌, ℕ, ◌+◌, ◌*◌, ◌%◌, ◌≡◌, refl, arith, true, inl, ◌==◌, if◌then◌else◌,
}
use pi_vos.Word.{kernel_space_mask, to_kernel_space}
use pi_vos.Mmu.Reg.{page_entry, page_size, table_fields, block_fields2, page_fields}
use pi_vos.Mmu.Tables.{
  Memory, read_entry, type_of, new_table_entry, new_page_entry, get_subtable,
  get_address_from_page_entry, get_address_from_block_entry, get_next_level_table_from_table_entry,
  is_same_memory_type,
}
use pi_vos.Mmu.Walk.{split_into, block_memory_type}
use pi_vos.Mmu.Entries.{new_page_entry_wraps}
use pi_vos.Mmu.Walk.Split.{split_into_pages, split_into_high}
use pi_vos.Mmu.Translate.{va_to_pa, WalksTo2, WalksTo3, va_to_pa-block}

-- The tables of the walk for address 0 are pages 1 to 4, and page 7 is mapped.
abbrev table : ℕ → ℕ
table page = page * 4096 + kernel_space_mask

abbrev mapped : Memory
mapped addr =
    if addr == table 1
    then 0x2003
    else if addr == table 2
    then 0x3003
    else if addr == table 3
    then 0x4003
    else if addr == table 4
    then 0x7003
    else 0

mapped-WalksTo2 : WalksTo2 mapped (table 1) 5 (table 3)
unfolding get_subtable to_kernel_space get_next_level_table_from_table_entry table_fields
mapped-WalksTo2 = record { t1 = table 2; entry0 = refl; sub0 = refl; entry1 = refl; sub1 = refl }

mapped-WalksTo3 : WalksTo3 mapped (table 1) 5 (table 4)
unfolding get_subtable to_kernel_space get_next_level_table_from_table_entry table_fields
mapped-WalksTo3 = record { t2 = table 3; above = mapped-WalksTo2; entry2 = refl; sub2 = refl }

-- Page 3 holds a block at entry 0 and nothing at entry 1, where the address below leads.
abbrev blocks : Memory
blocks addr =
    if addr == table 1
    then 0x2003
    else if addr == table 2
    then 0x3003
    else if addr == table 3
    then 0x40000001
    else 0

abbrev unmapped : ℕ
unmapped = 0x200005

blocks-WalksTo2 : WalksTo2 blocks (table 1) unmapped (table 3)
unfolding get_subtable to_kernel_space get_next_level_table_from_table_entry table_fields
blocks-WalksTo2 = record { t1 = table 2; entry0 = refl; sub0 = refl; entry1 = refl; sub1 = refl }

va_to_pa-block_example :
    va_to_pa blocks (table 1) unmapped
    ≡ get_address_from_page_entry (read_entry blocks (table 3) 0)
      + unmapped % page_size
      + kernel_space_mask
va_to_pa-block_example =
    va_to_pa-block {mem = blocks} {t0 = table 1} {va = unmapped} (omega arith) blocks-WalksTo2
      (omega arith) refl

split_into_pages_example :
    let old = read_entry blocks (table 3) 0 in
    let out = split_into (table 3) 0 2 (table 8) blocks in
    let page = read_entry out (table 8) 3 in
    (type_of page ≡ page_entry)
    × (get_address_from_page_entry page ≡ get_address_from_block_entry old 2 + 3 * 4096)
    × (is_same_memory_type page (block_memory_type old 2) ≡ true)
    × (read_entry out (table 3) 0 ≡ new_table_entry (table 8))
unfolding get_address_from_block_entry block_fields2
split_into_pages_example =
    split_into_pages blocks (table 3) 0 (table 8) 3 (omega arith) (omega arith) (inl (omega arith))
      (omega arith)

-- A block at 2 GB in every entry.
abbrev high_blocks : Memory
high_blocks = λ addr. 0x80000001

split_into_high_example :
    let old = read_entry high_blocks (table 3) 0 in
    let page = read_entry (split_into (table 3) 0 2 (table 8) high_blocks) (table 8) 3 in
    (type_of page ≡ page_entry)
    × ((page_fields page).output_address * 4096
        ≡ get_address_from_block_entry old 2 + 3 * 4096 + (2 ^ 48 - 2 ^ 32))
unfolding get_address_from_block_entry block_fields2
split_into_high_example =
    split_into_high high_blocks (table 3) 0 (table 8) 3 (omega arith) (omega arith)
      (inl (omega arith)) (omega arith) (omega arith)

new_page_entry_wraps_example :
    let entry = new_page_entry (2 ^ 36 + 0x5000) 1 in
    (type_of entry ≡ page_entry)
    × ((page_fields entry).output_address * 4096 ≡ (2 ^ 36 + 0x5000) / 4096 * 4096)
    × (get_address_from_page_entry entry ≡ (2 ^ 36 + 0x5000) % 2 ^ 36 / 4096 * 4096)
new_page_entry_wraps_example = new_page_entry_wraps (2 ^ 36 + 0x5000) 1 (omega arith) (omega arith)
