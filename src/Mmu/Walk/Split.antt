-- ===== src/Mmu/Walk/Split.antt =====
-- `mmu_split_block_entry`: the new table translates the block's addresses as the block did.
use pi_vos.Prelude.{
  ◌≤◌, ◌-◌, ℕ, zero, suc, ◌+◌, ◌*◌, ◌/◌, ◌%◌, ◌^◌, ◌<◌, ◌≡◌, ◌≢◌, refl, arith, true, ◌∙◌, ap,
}
use pi_vos.Word.{shl_int}
use pi_vos.Mmu.Reg.{page_entry, page_fields, block_fields2, attributes_fields}
use pi_vos.Mmu.Tables.{
  Memory, read_entry, write_entry, create_block_entry, create_page_entry, create_table_entry,
  new_page_entry, new_block_entry, new_table_entry, get_address_from_block_entry,
  get_address_from_page_entry, type_of, is_same_memory_type,
}
use pi_vos.Mmu.Entries.{new_page_entry_lem, new_page_entry_bits}
use pi_vos.Mmu.Fill.{fill, fill_outside, fill_inside, IsApart}
use pi_vos.Mmu.Walk.{
  fill_pages, fill_blocks, split_into, split_base, block_memory_type, unit_address,
}

fill_pages-eq-fill :
    (table level base t left n : ℕ) (mem : Memory)
    → fill_pages table level base t left n mem
      ≡ fill (λ i. new_page_entry (unit_address table level base t i) t) table left n mem
unfolding fill_pages fill create_page_entry
fill_pages-eq-fill table level base t zero n mem = refl
fill_pages-eq-fill table level base t (suc left) n mem =
    fill_pages-eq-fill table level base t left (n + 1) _

fill_blocks-eq-fill :
    (table level base t left n : ℕ) (mem : Memory)
    → fill_blocks table level base t left n mem
      ≡ fill (λ i. new_block_entry level (unit_address table level base t i) t) table left n mem
unfolding fill_blocks fill create_block_entry
fill_blocks-eq-fill table level base t zero n mem = refl
fill_blocks-eq-fill table level base t (suc left) n mem =
    fill_blocks-eq-fill table level base t left (n + 1) _

block_base :
    (entry : ℕ)
    → entry < 2 ^ 64
    → get_address_from_block_entry entry 2 ≡ entry / 2 ^ 21 % 2 ^ 27 * 2 ^ 21
unfolding get_address_from_block_entry block_fields2
block_base entry h = omega arith

-- Below 2 GB the base that the split computes is the address of the block.
split_base_lem :
    (entry : ℕ)
    → entry < 2 ^ 64
    → get_address_from_block_entry entry 2 < 2 ^ 31
    → split_base entry 2 ≡ get_address_from_block_entry entry 2
unfolding split_base shl_int get_address_from_block_entry block_fields2
split_base_lem entry h low = ground arith

split_base_high :
    (entry : ℕ)
    → entry < 2 ^ 64
    → 2 ^ 31 ≤ get_address_from_block_entry entry 2
    → get_address_from_block_entry entry 2 < 2 ^ 32
    → split_base entry 2 ≡ get_address_from_block_entry entry 2 + (2 ^ 64 - 2 ^ 32)
unfolding split_base shl_int get_address_from_block_entry block_fields2
split_base_high entry h from below = ground arith

block_type-lt : (entry : ℕ) → block_memory_type entry 2 < 8
unfolding block_memory_type block_fields2 attributes_fields
block_type-lt entry = omega arith

module _ (mem : Memory) (table idx new_table i : ℕ) (small : i < 512)
    (word : read_entry mem table idx < 2 ^ 64) (apart : IsApart new_table (table + 8 * idx)) where
  abbrev base : ℕ
  base = split_base (read_entry mem table idx) 2

  abbrev kind : ℕ
  kind = block_memory_type (read_entry mem table idx) 2

  abbrev page_of : ℕ → ℕ
  page_of j = new_page_entry (unit_address new_table 3 base kind j) kind

  abbrev linked : Memory
  linked = create_table_entry mem table idx new_table

  split_into-eq-fill : split_into table idx 2 new_table mem ≡ fill page_of new_table 512 0 linked
  unfolding split_into
  split_into-eq-fill = fill_pages-eq-fill new_table 3 base kind 512 0 linked

  new_entry :
      get_address_from_block_entry (read_entry mem table idx) 2 < 2 ^ 31
      → split_into table idx 2 new_table mem (new_table + 8 * i)
        ≡ new_page_entry (base + i * 4096) kind
  new_entry low =
      let b = split_base_lem (read_entry mem table idx) word low in
      let e : unit_address new_table 3 base kind i ≡ base + i * 4096 =
        omega (arith, b, block_base (read_entry mem table idx) word) in
      rw
        (
          split_into-eq-fill,
          fill_inside page_of new_table 512 0 linked i (omega arith) (omega arith),
        )
        (ap (λ (t : ℕ). new_page_entry t kind) e)

  split_entry : split_into table idx 2 new_table mem (table + 8 * idx) ≡ new_table_entry new_table
  unfolding create_table_entry write_entry
  split_entry =
      rw
        (
          split_into-eq-fill,
          fill_outside page_of new_table 512 0 linked (table + 8 * idx) (omega arith),
        )
        (ground arith)

  -- After the split of a level 2 block that lies below 2 GB, entry `i` of the new table is a page with the memory type
  -- of the block, at the address of the block's `i`-th page, and the split entry leads to the new
  -- table, where the split entry does not stand in the new table itself.
  pub split_into_pages :
      get_address_from_block_entry (read_entry mem table idx) 2 < 2 ^ 31
      → let old = read_entry mem table idx in
        let out = split_into table idx 2 new_table mem in
        let page = read_entry out new_table i in
        (type_of page ≡ page_entry)
        × (get_address_from_page_entry page ≡ get_address_from_block_entry old 2 + i * 4096)
        × (is_same_memory_type page (block_memory_type old 2) ≡ true)
        × (read_entry out table idx ≡ new_table_entry new_table)
  split_into_pages low =
      let old = read_entry mem table idx in
      let b = split_base_lem old word low in
      let p =
        new_page_entry_lem (base + i * 4096) kind (omega (arith, b, block_base old word))
          (block_type-lt old) in
      rw (new_entry low) (p.0, p.1 ∙ omega (arith, b, block_base old word), p.2, split_entry)

  -- After the split of a level 2 block from 2 GB on and below 4 GB, entry `i` of the new table is a
  -- page at an address that is wrong by `2 ^ 48 - 2 ^ 32`: the 16 bits above the
  -- block's 32 are set; where the split entry does not stand in the new table itself.
  pub split_into_high :
      2 ^ 31 ≤ get_address_from_block_entry (read_entry mem table idx) 2
      → get_address_from_block_entry (read_entry mem table idx) 2 < 2 ^ 32
      → let old = read_entry mem table idx in
        let page = read_entry (split_into table idx 2 new_table mem) new_table i in
        (type_of page ≡ page_entry)
        × ((page_fields page).output_address * 4096
            ≡ get_address_from_block_entry old 2 + i * 4096 + (2 ^ 48 - 2 ^ 32))
  split_into_high from below =
      let old = read_entry mem table idx in
      let b = split_base_high old word from below in
      let p = new_page_entry_bits (unit_address new_table 3 base kind i) kind (block_type-lt old) in
      rw
        (
          split_into-eq-fill,
          fill_inside page_of new_table 512 0 linked i (omega arith) (omega arith),
        )
        (p.0, rw (p.1) (omega (arith, b, block_base old word)))

  -- No word of memory changes but those of the new table and the split entry.
  pub split_into_outside :
      (addr : ℕ)
      → IsApart new_table addr
      → addr ≢ table + 8 * idx
      → split_into table idx 2 new_table mem addr ≡ mem addr
  unfolding create_table_entry write_entry
  split_into_outside addr out ne =
      rw (split_into-eq-fill, fill_outside page_of new_table 512 0 linked addr (omega arith))
        (ground arith)
