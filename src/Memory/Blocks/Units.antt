-- ===== src/Memory/Blocks/Units.antt =====
-- mmu.c: `mmu_map_units` on the blocks of one level 2 table, one to one.
use pi_vos.Prelude.{
  ℕ, zero, suc, ◌+◌, ◌*◌, ◌^◌, ◌≤◌, ◌<◌, ◌≡◌, refl, arith, ◌∙◌, sym, true, false, some, ap, ◌⊎◌,
  inl, inr, ◌==◌, Bool-cases,
}
use mathlib.Core.Path.{subst}
use pi_vos.Word.{u64}
use pi_vos.Allocator.{Allocator}
use pi_vos.Mmu.Reg.{table_entry, size_of_level_region}
use pi_vos.Mmu.Tables.{
  Memory, read_entry, write_entry, type_of, is_same_memory_type, new_block_entry,
  create_block_entry,
}
use pi_vos.Mmu.Walk.{EntryInfo, ◌>>=◌, ◌>>◌}
use pi_vos.Mmu.Walk.Steps.{table_at}
use pi_vos.Mmu.Insert.{map_taken, map_unit, map_table_units}
use pi_vos.Proc.{one_to_one}
use pi_vos.Memory.{source, get_phys_space}
use pi_vos.Memory.Blocks.{Shape, Tree, Tree-agree, Tree-write, placed, placed_outside}

-- The entry is empty, or a block of the wanted memory type.
abbrev pub IsFit : ℕ → ℕ → Type 0
IsFit type entry =
    (entry ≡ 0)
    ⊎ (((type_of entry == table_entry) ≡ false) × (is_same_memory_type entry type ≡ true))

module _ (a : Allocator) (p0 p1 type : ℕ) (t : Shape) (j : ℕ) (small : j < 512)
    (has : t.has j ≡ true) (s : Allocator) where
  abbrev here : ℕ → EntryInfo
  here idx = record { table = table_at (t.tab j); idx = idx; level = 2 }

  unit_empty :
      (mem : Memory) (i idx n : ℕ)
      → read_entry mem (table_at (t.tab j)) i ≡ 0
      → map_unit source
          (get_phys_space one_to_one)
          create_block_entry
          2
          type
          (here idx)
          i
          (n * 2 ^ 21)
          (record { mem = mem; pages = s })
        ≡ some (
          tt,
          record {
            mem = write_entry mem (table_at (t.tab j)) i (new_block_entry 2 (n * 2 ^ 21) type);
            pages = s;
          },
        )
  unfolding map_unit create_block_entry get_phys_space
  unit_empty mem i idx n e = rw (◌>>=◌, e) refl

  unit_taken :
      (mem : Memory) (i idx n e : ℕ)
      → read_entry mem (table_at (t.tab j)) i ≡ e
      → (e == 0) ≡ false
      → (type_of e == table_entry) ≡ false
      → is_same_memory_type e type ≡ true
      → map_unit source
          (get_phys_space one_to_one)
          create_block_entry
          2
          type
          (here idx)
          i
          (n * 2 ^ 21)
          (record { mem = mem; pages = s })
        ≡ some (tt, record { mem = mem; pages = s })
  unfolding map_unit map_taken
  unit_taken mem i idx n e read some_entry no_table same =
      rw (◌>>=◌, read, some_entry, no_table, same) refl

  -- One unit.
  unit_placed :
      (e : ℕ → ℕ) (mem : Memory) (i idx : ℕ)
      → i < 512
      → IsFit type (e (j * 512 + i))
      → Tree a p0 p1 t e mem
      → (out : Memory) × (map_unit source
            (get_phys_space one_to_one)
            create_block_entry
            2
            type
            (here idx)
            i
            ((j * 512 + i) * 2 ^ 21)
            (record { mem = mem; pages = s })
          ≡ some (tt, record { mem = out; pages = s }))
        × Tree a p0 p1 t (placed type (j * 512 + i) 1 e) out
  unit_placed e mem i idx h fit tree = elim (Bool-cases (e (j * 512 + i) == 0)) [
    | inl empty ↦
        let zero_entry : e (j * 512 + i) ≡ 0 = ground arith in
        let new : placed type (j * 512 + i) 1 e (j * 512 + i)
            ≡ new_block_entry 2 ((j * 512 + i) * 2 ^ 21) type =
          ground arith in
        (
          write_entry mem (table_at (t.tab j)) i (placed type (j * 512 + i) 1 e (j * 512 + i)),
          unit_empty mem i idx (j * 512 + i) (tree.level2 j i small h has ∙ zero_entry)
              ∙ ap
                  (λ v.
                    some (
                      tt {0},
                      record { mem = write_entry mem (table_at (t.tab j)) i v; pages = s },
                    ))
                  (sym new),
          Tree-write a p0 p1 t e (placed type (j * 512 + i) 1 e) mem j i small h has
              (λ n ne. ground arith) tree,
        )
    | inr full ↦ elim fit [
      | inl zero_entry ↦ absurd (ground arith)
      | inr (no_table, same) ↦ (
        mem,
        unit_taken mem i idx (j * 512 + i) (e (j * 512 + i)) (tree.level2 j i small h has) full
            no_table same,
        Tree-agree a p0 p1 t e (placed type (j * 512 + i) 1 e) mem (λ n. unchanged e n full) tree,
      )
    ]
  ]
    where
      unchanged :
          (f : ℕ → ℕ) (n : ℕ)
          → (f (j * 512 + i) == 0) ≡ false
          → f n ≡ placed type (j * 512 + i) 1 f n
      unchanged f n full = elim (Bool-cases (n == j * 512 + i)) [
        | inl at ↦
            let q : n ≡ j * 512 + i = ground arith in
            let no : (f n == 0) ≡ false = ap (λ k. f k == 0) q ∙ full in ground arith
        | inr other ↦ ground arith
      ]

  placed_again :
      (f : ℕ → ℕ) (from left n : ℕ)
      → placed type (from + 1) left (placed type from 1 f) n ≡ placed type from (suc left) f n
  placed_again f from left n = elim (Bool-cases (n == from)) [
    | inl first ↦ elim (Bool-cases (f n == 0)) [ inl e ↦ ground arith | inr e ↦ ground arith ]
    | inr later ↦ ground arith
  ]

  -- The units of one round.
  pub units_placed :
      (left : ℕ) (e : ℕ → ℕ) (mem : Memory) (i idx : ℕ)
      → i + left ≤ 512
      → ((n : ℕ) → j * 512 + i ≤ n → n < j * 512 + i + left → IsFit type (e n))
      → Tree a p0 p1 t e mem
      → (out : Memory) × (map_table_units source
            (get_phys_space one_to_one)
            create_block_entry
            2
            type
            left
            (here idx)
            i
            ((j * 512 + i) * 2 ^ 21)
            (record { mem = mem; pages = s })
          ≡ some (tt, record { mem = out; pages = s }))
        × Tree a p0 p1 t (placed type (j * 512 + i) left e) out
  unfolding map_table_units
  units_placed zero e mem i idx h fit tree =
      (mem, refl, Tree-agree a p0 p1 t e _ mem (λ n. ground arith) tree)
  units_placed (suc left) e mem i idx h fit tree =
      let n : ℕ = j * 512 + i in
      let (mem1, first, tree1) =
        unit_placed e mem i idx (omega arith) (fit n (omega arith) (omega arith)) tree in
      let next : n + 1 ≡ j * 512 + (i + 1) = omega arith in
      let (mem2, rest, tree2) =
        units_placed left (placed type n 1 e) mem1 (i + 1) idx (omega arith) fits tree1 in
      (
        mem2,
        rw (◌>>=◌, ◌>>◌, first, address) rest,
        Tree-agree a p0 p1 t (placed type (j * 512 + (i + 1)) left (placed type n 1 e))
            (placed type n (suc left) e) mem2
            (λ k.
              ap (λ from. placed type from left (placed type n 1 e) k) (sym next)
              ∙ placed_again e n left k)
            tree2,
      )
    where
      address : u64 ((j * 512 + i) * 2 ^ 21 + size_of_level_region 2) ≡ (j * 512 + (i + 1)) * 2 ^ 21
      address = omega arith

      fits :
          (k : ℕ)
          → j * 512 + (i + 1) ≤ k
          → k < j * 512 + (i + 1) + left
          → IsFit type (placed type (j * 512 + i) 1 e k)
      fits k low high =
          subst (λ v. IsFit type v) (sym (placed_outside type e (j * 512 + i) 1 k (omega arith)))
            (fit k (omega arith) (omega arith))
