-- ===== src/Memory/Kernel.antt =====
-- memory.c: the regions that `memory_init` maps, each of whole blocks, one to one.
pub mod Boot
pub mod Identity
pub mod Init
pub mod Whole
use pi_vos.Prelude.{
  ℕ, zero, suc, ◌+◌, ◌-◌, ◌*◌, ◌/◌, ◌%◌, ◌^◌, ◌≤◌, ◌<◌, ◌≡◌, refl, arith, ◌∙◌, sym, true, some, ap,
  leb, ltb, min, if◌then◌else◌,
}
use mathlib.Core.Path.{subst}
use pi_vos.Word.{u32, u64, sub64, align_up64}
use pi_vos.Word.Align.{align_up64_lem}
use pi_vos.Allocator.{Allocator}
use pi_vos.Allocator.Valid.{IsValid}
use pi_vos.Allocator.Sequence.{after}
use pi_vos.Allocator.Sequence.Low.{free_low}
use pi_vos.Mmu.Reg.{page_size, size_of_level_region}
use pi_vos.Mmu.Tables.{Memory, create_page_entry, create_block_entry}
use pi_vos.Mmu.Walk.{Machine, M, ◌>>=◌, ◌>>◌}
use pi_vos.Mmu.Walk.Steps.{table_at}
use pi_vos.Mmu.Insert.{CreateEntry, map_some, map_units, map_loop, insert_blocks, insert}
use pi_vos.Proc.{Region, one_to_one}
use pi_vos.Memory.{source, get_phys_space, map_region}
use pi_vos.Memory.Blocks.{Shape, Tree, Tree-agree, placed}
use pi_vos.Memory.Blocks.Units.{IsFit}
use pi_vos.Memory.Blocks.Rounds.{tables_for}
use pi_vos.Memory.Blocks.Loop.{loop-Mapped}

map_some_none :
    (create : CreateEntry) (level t0 va type count : ℕ) (m : Machine source)
    → count ≡ 0
    → map_some source (get_phys_space one_to_one) create level type t0 0 va count m ≡ some (tt, m)
unfolding map_some
map_some_none create level t0 va type count m e = rw e refl

map_some_blocks :
    (t0 va va1 type blocks count : ℕ) (m m' : Machine source)
    → blocks ≡ count
    → va ≡ va1
    → 0 < count
    → map_loop source (get_phys_space one_to_one) create_block_entry 2 type count t0 0 va1 0 count m
      ≡ some (tt, m')
    → map_some source (get_phys_space one_to_one) create_block_entry 2 type t0 0 va blocks m
      ≡ some (tt, m')
unfolding map_some map_units
map_some_blocks t0 va va1 type blocks count m m' e at some_blocks run =
    let more : ltb 0 count ≡ true = ground arith in rw (e, at, more) run

insert_blocks_aligned :
    (t0 n count type : ℕ) (m m' : Machine source)
    → 0 < count
    → n + count ≤ 2 ^ 18
    → map_loop source
        (get_phys_space one_to_one)
        create_block_entry
        2
        type
        count
        t0
        0
        (n * 2 ^ 21)
        0
        count
        m
      ≡ some (tt, m')
    → insert_blocks source (get_phys_space one_to_one) t0 0 (n * 2 ^ 21) (count * 2 ^ 21) type m
      ≡ some (tt, m')
unfolding insert_blocks
insert_blocks_aligned t0 n count type m m' some_blocks small run =
    let va : ℕ = n * 2 ^ 21 in
    let size : ℕ = count * 2 ^ 21 in
    let up : align_up64 va (size_of_level_region 2) ≡ va =
      align_up64_lem va 21 (omega arith) (omega arith) ∙ omega arith in
    let head : u32 (min size (sub64 (align_up64 va (size_of_level_region 2)) va)) ≡ 0 =
      ap (λ b. u32 (min size (sub64 b va))) up ∙ omega arith in
    let all : u32 (
          sub64 size
            (u64 (u32 (min size (sub64 (align_up64 va (size_of_level_region 2)) va)) * page_size))
          / size_of_level_region 2)
        ≡ count =
      ap (λ h. u32 (sub64 size (u64 (h * page_size)) / size_of_level_region 2)) head
      ∙ omega arith in
    let at : u64 (
          va + u64 (u32 (min size (sub64 (align_up64 va (size_of_level_region 2)) va)) * page_size))
        ≡ va =
      ap (λ h. u64 (va + u64 (h * page_size))) head ∙ omega arith in
    let none_left : (h : ℕ)
        → h ≡ 0
        → u32 (
            sub64 size (
              u64 (
                u64 (h * page_size)
                + u32 (sub64 size (u64 (h * page_size)) / size_of_level_region 2)
                  * size_of_level_region 2))
            / page_size)
          ≡ 0 =
      λ h e. rw e (omega arith) in
    rw
      (
        ◌>>◌,
        ◌>>=◌,
        map_some_none create_page_entry 3 t0 va type _ m head,
        map_some_blocks t0 _ va type _ count m m' all at some_blocks run,
        map_some_none create_page_entry 3 t0 _ type _ m' (none_left _ head),
      )
      refl

-- A region of whole blocks, from a block on, has no pages before or after its blocks.
insert_aligned :
    (t0 n count type : ℕ) (m m' : Machine source)
    → 0 < count
    → n + count ≤ 2 ^ 18
    → map_loop source
        (get_phys_space one_to_one)
        create_block_entry
        2
        type
        count
        t0
        0
        (n * 2 ^ 21)
        0
        count
        m
      ≡ some (tt, m')
    → insert source (get_phys_space one_to_one) t0 0 (n * 2 ^ 21) (count * 2 ^ 21) type m
      ≡ some (tt, m')
unfolding insert
insert_aligned t0 n count type m m' some_blocks small run =
    rw test (insert_blocks_aligned t0 n count type m m' some_blocks small run)
  where
    up : align_up64 (n * 2 ^ 21) (size_of_level_region 2) ≡ n * 2 ^ 21
    up = align_up64_lem (n * 2 ^ 21) 21 (omega arith) (omega arith) ∙ omega arith

    whole :
        leb (u64 (sub64 (n * 2 ^ 21) (n * 2 ^ 21) + size_of_level_region 2)) (count * 2 ^ 21) ≡ true
    whole = ground arith

    test :
        leb
          (u64 (
            sub64 (align_up64 (n * 2 ^ 21) (size_of_level_region 2)) (n * 2 ^ 21)
            + size_of_level_region 2))
          (count * 2 ^ 21)
        ≡ true
    test =
        ap (λ b. leb (u64 (sub64 b (n * 2 ^ 21) + size_of_level_region 2)) (count * 2 ^ 21)) up
        ∙ whole

-- What mapping a region of `count` blocks from block `n` on leaves.
pub record Extends (a : Allocator) (p0 p1 type n count : ℕ) (t : Shape) (e : ℕ → ℕ) (mem : Memory)
    : Type 0 where
  pub shape : Shape
  pub out : Memory
  pub returns :
      map_region
        (table_at p0)
        (record { memory_type = type; va = n * 2 ^ 21; size = count * 2 ^ 21 })
        one_to_one
        (record { mem = mem; pages = after a t.taken })
      ≡ some (tt, record { mem = out; pages = after a shape.taken })
  pub tree_after : Tree a p0 p1 shape (placed type n count e) out
  pub few_taken : shape.taken ≤ t.taken + tables_for n count

pub map_region-Extends :
    {a : Allocator} (v : IsValid a) (pages : a.page_size ≡ 4096) (p0 p1 type n count : ℕ)
    (t : Shape) (e : ℕ → ℕ) (mem : Memory)
    → p1 < 2 ^ 24
    → 0 < count
    → n + count ≤ 2 ^ 18
    → t.taken + tables_for n count ≤ free_low a
    → ((k : ℕ) → n ≤ k → k < n + count → IsFit type (e k))
    → Tree a p0 p1 t e mem
    → Extends a p0 p1 type n count t e mem
unfolding map_region
map_region-Extends {a} v pages p0 p1 type n count t e mem low some_blocks small few fit tree =
    let at : n + 0 ≡ n = omega arith in
    let m =
      loop-Mapped a v pages p0 p1 type n low count count 0 t e mem (omega arith) (omega arith)
        (rw at few) (λ k l h. fit k (omega arith) (omega arith)) tree in
    record {
      shape = m.shape;
      out = m.out;
      returns = insert_aligned (table_at p0) n count type _ _ some_blocks small m.returns;
      tree_after = subst (λ k. Tree a p0 p1 m.shape (placed type k count e) m.out) at m.tree_after;
      few_taken = subst (λ k. m.shape.taken ≤ t.taken + tables_for k count) at m.few_taken;
    }
