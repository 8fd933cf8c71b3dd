-- ===== src/Memory/Blocks/Rounds.antt =====
-- mmu.c: all rounds of `mmu_map_units` for blocks.
use pi_vos.Prelude.{
  ℕ, suc, ◌+◌, ◌-◌, ◌*◌, ◌/◌, ◌%◌, ◌^◌, ◌≤◌, ◌<◌, ◌≡◌, refl, arith, true, some, inl, inr, ◌==◌, ltb,
  min, if◌then◌else◌, Bool-cases,
}
use mathlib.Core.Path.{subst}
use pi_vos.Word.{u32, u64, sub32, sub64}
use pi_vos.Allocator.{Allocator}
use pi_vos.Allocator.Valid.{IsValid}
use pi_vos.Allocator.Sequence.{after}
use pi_vos.Allocator.Sequence.Low.{free_low}
use pi_vos.Mmu.Reg.{size_of_level_region}
use pi_vos.Mmu.Tables.{Memory, create_block_entry}
use pi_vos.Mmu.Walk.{Machine, traverse_and_alloc_tables, ◌>>=◌, ◌>>◌}
use pi_vos.Mmu.Walk.Steps.{table_at}
use pi_vos.Mmu.Insert.{map_table_units, map_loop}
use pi_vos.Proc.{one_to_one}
use pi_vos.Memory.{source, get_phys_space}
use pi_vos.Memory.Blocks.{Shape, Tree, placed}
use pi_vos.Memory.Blocks.Units.{IsFit, units_placed}
use pi_vos.Memory.Blocks.Walk.{walk_block}

-- The level 2 tables that `count` blocks from block `n` on stand in.
abbrev pub tables_for : ℕ → ℕ → ℕ
tables_for n count = if count == 0 then 0 else (n % 512 + count + 511) / 512

-- The blocks of the next round.
abbrev pub in_round : ℕ → ℕ → ℕ
in_round n count = min (512 - n % 512) count

pub tables_for_rest :
    (n count : ℕ)
    → 0 < count
    → tables_for (n + in_round n count) (count - in_round n count) + 1 ≤ tables_for n count
tables_for_rest n count h = ground arith

pub placed_both :
    (type : ℕ) (f : ℕ → ℕ) (from count more n : ℕ)
    → placed type (from + count) more (placed type from count f) n
      ≡ placed type from (count + more) f n
placed_both type f from count more n = elim (Bool-cases (ltb n (from + count))) [
  | inl first ↦ elim (Bool-cases (f n == 0)) [ inl e ↦ ground arith | inr e ↦ ground arith ]
  | inr later ↦ ground arith
]

module _ (type t0 n0 : ℕ) where
  -- One round, with the walk and the units it makes.
  pub round_lem :
      (fuel count done i u table : ℕ) (m m1 m2 : Machine source)
      → 0 < count
      → count < 2 ^ 32
      → i ≡ (n0 + done) % 512
      → u ≡ in_round (n0 + done) count
      → n0 + done + count ≤ 2 ^ 18
      → traverse_and_alloc_tables source t0 0 ((n0 + done) * 2 ^ 21) 2 m
        ≡ some (record { table = table; idx = i; level = 2 }, m1)
      → map_table_units source
          (get_phys_space one_to_one)
          create_block_entry
          2
          type
          u
          (record { table = table; idx = i; level = 2 })
          i
          ((n0 + done) * 2 ^ 21)
          m1
        ≡ some (tt, m2)
      → map_loop source
          (get_phys_space one_to_one)
          create_block_entry
          2
          type
          (suc fuel)
          t0
          0
          (n0 * 2 ^ 21)
          (done * 2 ^ 21)
          count
          m
        ≡ map_loop source
            (get_phys_space one_to_one)
            create_block_entry
            2
            type
            fuel
            t0
            0
            (n0 * 2 ^ 21)
            ((done + u) * 2 ^ 21)
            (count - u)
            m2
  unfolding map_loop
  round_lem fuel count done i u table m m1 m2 some_left small at units fits walk run =
      rw (more, ◌>>◌, ◌>>=◌, address, walk, all, address, run, all, offset, spent) refl
    where
      more : ltb 0 count ≡ true
      more = ground arith

      address : u64 (n0 * 2 ^ 21 + done * 2 ^ 21) ≡ (n0 + done) * 2 ^ 21
      address = omega arith

      all : u32 (min (sub64 512 i) count) ≡ u
      all = omega arith

      offset : u64 (done * 2 ^ 21 + u * size_of_level_region 2) ≡ (done + u) * 2 ^ 21
      offset = omega arith

      spent : sub32 count u ≡ count - u
      spent = omega arith

module _ (a : Allocator) (v : IsValid a) (pages : a.page_size ≡ 4096) (p0 p1 type : ℕ)
    (p1_small : p1 < 2 ^ 24) where
  -- What a round does from block `n` on, which has entry `i`, with `u` units.
  pub record Round (t : Shape) (e : ℕ → ℕ) (mem : Memory) (i u n : ℕ) : Type 0 where
    pub next_shape : Shape
    pub table : ℕ
    pub walked : Memory
    pub mapped : Memory
    pub at_most_one : next_shape.taken ≤ suc t.taken
    pub walks :
        traverse_and_alloc_tables source
          (table_at p0)
          0
          (n * 2 ^ 21)
          2
          (record { mem = mem; pages = after a t.taken })
        ≡ some (
          record { table = table; idx = i; level = 2 },
          record { mem = walked; pages = after a next_shape.taken },
        )
    pub maps :
        map_table_units source
          (get_phys_space one_to_one)
          create_block_entry
          2
          type
          u
          (record { table = table; idx = i; level = 2 })
          i
          (n * 2 ^ 21)
          (record { mem = walked; pages = after a next_shape.taken })
        ≡ some (tt, record { mem = mapped; pages = after a next_shape.taken })
    pub next_tree : Tree a p0 p1 next_shape (placed type n u e) mapped

  Round-at :
      (t : Shape) (e : ℕ → ℕ) (mem : Memory) (j i u : ℕ)
      → j < 512
      → i < 512
      → i + u ≤ 512
      → t.taken < free_low a
      → ((n : ℕ) → j * 512 + i ≤ n → n < j * 512 + i + u → IsFit type (e n))
      → Tree a p0 p1 t e mem
      → Round t e mem i u (j * 512 + i)
  Round-at t e mem j i u hj hi room few fit tree =
      let w = walk_block a v pages p0 p1 p1_small t e mem j hj tree i hi few in
      let (out, run, tree2) =
        units_placed a p0 p1 type w.shape j hj w.has_table (after a w.shape.taken) u e w.out i i
          room fit w.tree_after in
      record {
        next_shape = w.shape;
        table = table_at (w.shape.tab j);
        walked = w.out;
        mapped = out;
        at_most_one = w.at_most_one;
        walks = w.walks;
        maps = run;
        next_tree = tree2;
      }

  pub Round-from :
      (t : Shape) (e : ℕ → ℕ) (mem : Memory) (n u : ℕ)
      → n < 2 ^ 18
      → n % 512 + u ≤ 512
      → t.taken < free_low a
      → ((k : ℕ) → n ≤ k → k < n + u → IsFit type (e k))
      → Tree a p0 p1 t e mem
      → Round t e mem (n % 512) u n
  Round-from t e mem n u small room few fit tree =
      let place : n / 512 * 512 + n % 512 ≡ n = omega arith in
      subst (Round t e mem (n % 512) u) place (
        Round-at t e mem (n / 512) (n % 512) u (omega arith) (omega arith) room few
          (λ k low high. fit k (omega arith) (omega arith)) tree)
