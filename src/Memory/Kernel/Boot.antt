-- ===== src/Memory/Kernel/Boot.antt =====
-- memory.c: the tables that boot/mmu.S leaves, and the blocks of the kernel's map.
use pi_vos.Prelude.{
  ℕ, ◌+◌, ◌-◌, ◌*◌, ◌^◌, ◌≤◌, ◌<◌, ◌≡◌, refl, arith, ◌∙◌, sym, true, ap, inl, inr, ◌==◌, ◌&&◌, leb,
  ltb, if◌then◌else◌, Bool-cases,
}
use pi_vos.Allocator.{Allocator}
use pi_vos.Allocator.Valid.{is_claimed}
use pi_vos.Allocator.Sequence.{after}
use pi_vos.Mmu.Reg.{block_entry, table_bits, common_fields, attributes_fields, block_fields2}
use pi_vos.Mmu.Tables.{
  Memory, read_entry, type_of, is_same_memory_type, new_table_entry, new_block_entry,
  get_address_from_block_entry,
}
use pi_vos.Mmu.Entries.{type_of_lem, new_block_entry_lem}
use pi_vos.Mmu.Walk.Steps.{table_at}
use pi_vos.Memory.Blocks.{Shape, Tree, placed}
use pi_vos.Memory.Blocks.Units.{IsFit}

-- The entry that `create_entries_loop` of boot/mmu.S writes for block `n`.
abbrev pub boot_entry : ℕ → ℕ
boot_entry n = n * 2 ^ 21 + 0x401

-- The tables that boot/mmu.S leaves in pages `p0` to `p0 + 2`: the first 1 GB in blocks.
pub record BootTables (mem : Memory) (p0 : ℕ) : Type 0 where
  pub level0_first : read_entry mem (table_at p0) 0 ≡ (p0 + 1) * 4096 + 3
  pub level1_first : read_entry mem (table_at (p0 + 1)) 0 ≡ (p0 + 2) * 4096 + 3
  pub level1_rest : (j : ℕ) → 0 < j → j < 512 → read_entry mem (table_at (p0 + 1)) j ≡ 0
  pub level2_blocks : (i : ℕ) → i < 512 → read_entry mem (table_at (p0 + 2)) i ≡ boot_entry i

-- A table entry has only the address and the two low bits.
new_table_entry_bits :
    (page : ℕ) → page < 2 ^ 24 → new_table_entry (table_at page) ≡ page * 4096 + 3
unfolding new_table_entry table_bits
new_table_entry_bits page h = omega arith

abbrev pub boot_map : ℕ → ℕ
boot_map n = if ltb n 512 then boot_entry n else 0

boot_entry_lem :
    (n : ℕ)
    → n < 512
    → (type_of (boot_entry n) ≡ block_entry)
      × (get_address_from_block_entry (boot_entry n) 2 ≡ n * 2 ^ 21)
      × (is_same_memory_type (boot_entry n) 0 ≡ true)
unfolding get_address_from_block_entry is_same_memory_type common_fields attributes_fields
    block_fields2
boot_entry_lem n h = (rw type_of_lem (omega arith), omega arith, ground arith)

abbrev pub boot_shape : ℕ → Shape
boot_shape p0 = record { tab = λ j. p0 + 2; has = λ j. j == 0; taken = 0 }

pub boot-Tree :
    (a : Allocator) (mem : Memory) (p0 : ℕ)
    → p0 + 2 < 2 ^ 24
    → is_claimed a p0 ≡ true
    → is_claimed a (p0 + 1) ≡ true
    → is_claimed a (p0 + 2) ≡ true
    → BootTables mem p0
    → Tree a p0 (p0 + 1) (boot_shape p0) boot_map mem
unfolding after
boot-Tree a mem p0 low held0 held1 held2 boot = record {
  root = boot.level0_first ∙ sym (new_table_entry_bits (p0 + 1) (omega arith));
  level1 = λ j h. elim (Bool-cases (j == 0)) [
    | inl first ↦
        let z : j ≡ 0 = ground arith in
        rw (first, z) (boot.level1_first ∙ sym (new_table_entry_bits (p0 + 2) (omega arith)))
    | inr other ↦ rw other (boot.level1_rest j (ground arith) h)
  ];
  level2 = λ j i hj hi h.
      let at : i ≡ j * 512 + i = ground arith in
      let here : boot_entry i ≡ boot_map i = ground arith in
      boot.level2_blocks i hi ∙ here ∙ ap (λ n. boot_map n) at;
  blank = λ j i hi h. ground arith;
  root_apart = omega arith;
  tab_apart = λ j h. (omega arith, omega arith, low);
  tabs_apart = λ j k hj hk ne same. ne (ground arith);
  held0 = held0;
  held1 = held1;
  held = λ j h. held2;
}

-- The entries after each of the three regions.
abbrev pub map1 : ℕ → ℕ
map1 = placed 0 0 1920 boot_map

abbrev pub map2 : ℕ → ℕ
map2 = placed 1 1920 128 map1

abbrev pub map3 : ℕ → ℕ → ℕ
map3 blocks = placed 0 2048 (blocks - 2048) map2

pub boot_map-IsFit : (n : ℕ) → IsFit 0 (boot_map n)
boot_map-IsFit n = elim (Bool-cases (ltb n 512)) [
  | inl low ↦ let b = boot_entry_lem n (ground arith) in rw low (inr (rw b.0 refl, b.2))
  | inr high ↦ inl (rw high refl)
]

-- The memory type of a block: that of a device between the addresses of the peripherals.
abbrev pub kernel_type : ℕ → ℕ
kernel_type n = if leb 1920 n && ltb n 2048 then 1 else 0

-- An entry for block `n` at that address and with that type.
abbrev pub MapsBlock : ℕ → ℕ → Type 0
MapsBlock n entry =
    (type_of entry ≡ block_entry)
    × (get_address_from_block_entry entry 2 ≡ n * 2 ^ 21)
    × (is_same_memory_type entry (kernel_type n) ≡ true)

new-MapsBlock :
    (n type : ℕ)
    → n < 2 ^ 18
    → kernel_type n ≡ type
    → MapsBlock n (new_block_entry 2 (n * 2 ^ 21) type)
new-MapsBlock n type h e =
    let kind : type < 8 = ground (arith, e) in
    let b = new_block_entry_lem 2 (n * 2 ^ 21) type (inr refl) (omega arith) kind in
    (b.0, b.1 ∙ omega arith, rw e b.2)

pub map3-MapsBlock : (n blocks : ℕ) → n < blocks → blocks ≤ 2 ^ 18 → MapsBlock n (map3 blocks n)
map3-MapsBlock n blocks h small = elim (Bool-cases (ltb n 512)) [
  | inl booted ↦
      let b = boot_entry_lem n (ground arith) in
      let e : map3 blocks n ≡ boot_entry n = ground arith in
      let k : kernel_type n ≡ 0 = ground arith in rw (e, k) b
  | inr later ↦
      let e : map3 blocks n ≡ new_block_entry 2 (n * 2 ^ 21) (kernel_type n) = ground arith in
      rw e (new-MapsBlock n (kernel_type n) (omega arith) refl)
]

pub map3-eq-zero : (n blocks : ℕ) → blocks ≤ n → 2048 ≤ blocks → map3 blocks n ≡ 0
map3-eq-zero n blocks h low = ground arith
