-- ===== src/Memory/Blocks.antt =====
-- memory.c and mmu.c: the tables of the kernel's map, which consists of blocks of 2 MB below 512 GB.
--
-- Block `n` has entry `n % 512` of the level 2 table of entry `n / 512` of the level 1 table.
pub mod Units
pub mod Walk
pub mod Rounds
pub mod Loop
use pi_vos.Prelude.{
  ℕ, zero, suc, ◌+◌, ◌-◌, ◌*◌, ◌/◌, ◌%◌, ◌^◌, ◌≤◌, ◌<◌, ◌≡◌, ◌≢◌, refl, arith, ◌∙◌, sym, Bool, true,
  false, some, ap, ◌⊎◌, inl, inr, ◌==◌, ◌&&◌, leb, ltb, if◌then◌else◌, Bool-cases,
}
use pi_vos.Allocator.{Allocator}
use pi_vos.Allocator.Valid.{is_claimed}
use pi_vos.Allocator.Sequence.{after}
use pi_vos.Mmu.Tables.{Memory, read_entry, write_entry, new_table_entry, new_block_entry}
use pi_vos.Mmu.Fill.{write_entry_apart, read_entry-write_entry}
use pi_vos.Mmu.Walk.Steps.{table_at}

-- Which entries of the level 1 table lead to a table, to which page, and how many pages the
-- allocator gave so far.
pub record Shape : Type 0 where
  pub tab : ℕ → ℕ
  pub has : ℕ → Bool
  pub taken : ℕ

-- The entries of the blocks once `count` of them from `from` on are mapped: those that were empty
-- are new blocks.
abbrev pub placed : ℕ → ℕ → ℕ → (ℕ → ℕ) → ℕ → ℕ
placed type from count e n =
    if leb from n && (ltb n (from + count) && (e n == 0))
    then new_block_entry 2 (n * 2 ^ 21) type
    else e n

pub placed_outside :
    (type : ℕ) (f : ℕ → ℕ) (from count n : ℕ)
    → (n < from) ⊎ (from + count ≤ n)
    → placed type from count f n ≡ f n
placed_outside type f from count n out = ground arith

module _ (a : Allocator) (p0 p1 : ℕ) where
  -- Memory holds a level 0 table in page `p0` and a level 1 table in page `p1` of that shape, and
  -- `e n` is the entry of block `n`.
  pub record Tree (t : Shape) (e : ℕ → ℕ) (mem : Memory) : Type 0 where
    pub root : read_entry mem (table_at p0) 0 ≡ new_table_entry (table_at p1)
    pub level1 :
        (j : ℕ)
        → j < 512
        → read_entry mem (table_at p1) j
          ≡ (if t.has j then new_table_entry (table_at (t.tab j)) else 0)
    pub level2 :
        (j i : ℕ)
        → j < 512
        → i < 512
        → t.has j ≡ true
        → read_entry mem (table_at (t.tab j)) i ≡ e (j * 512 + i)
    pub blank : (j i : ℕ) → i < 512 → t.has j ≡ false → e (j * 512 + i) ≡ 0
    pub root_apart : p0 ≢ p1
    pub tab_apart : (j : ℕ) → t.has j ≡ true → (t.tab j ≢ p0) × (t.tab j ≢ p1) × (t.tab j < 2 ^ 24)
    pub tabs_apart : (j k : ℕ) → t.has j ≡ true → t.has k ≡ true → j ≢ k → t.tab j ≢ t.tab k
    pub held0 : is_claimed (after a t.taken) p0 ≡ true
    pub held1 : is_claimed (after a t.taken) p1 ≡ true
    pub held : (j : ℕ) → t.has j ≡ true → is_claimed (after a t.taken) (t.tab j) ≡ true

  -- Only the entries at the blocks matter.
  pub Tree-agree :
      (t : Shape) (e e' : ℕ → ℕ) (mem : Memory)
      → ((n : ℕ) → e n ≡ e' n)
      → Tree t e mem
      → Tree t e' mem
  Tree-agree t e e' mem same tree = record {
    root = tree.root;
    level1 = tree.level1;
    level2 = λ j i hj hi h. tree.level2 j i hj hi h ∙ same (j * 512 + i);
    blank = λ j i hi h. sym (same (j * 512 + i)) ∙ tree.blank j i hi h;
    root_apart = tree.root_apart;
    tab_apart = tree.tab_apart;
    tabs_apart = tree.tabs_apart;
    held0 = tree.held0;
    held1 = tree.held1;
    held = tree.held;
  }

  -- One entry of a level 2 table is written.
  pub Tree-write :
      (t : Shape) (e e' : ℕ → ℕ) (mem : Memory) (j i : ℕ)
      → j < 512
      → i < 512
      → t.has j ≡ true
      → ((n : ℕ) → n ≢ j * 512 + i → e' n ≡ e n)
      → Tree t e mem
      → Tree t e' (write_entry mem (table_at (t.tab j)) i (e' (j * 512 + i)))
  Tree-write t e e' mem j i hj hi has others tree = record {
    root = write_entry_apart mem table i v (table_at p0 + 8 * 0) (omega (arith, apart)) ∙ tree.root;
    level1 = λ k hk.
        write_entry_apart mem table i v (table_at p1 + 8 * k) (omega (arith, apart))
        ∙ tree.level1 k hk;
    level2 = λ k l hk hl h. elim (Bool-cases (k == j)) [
      | inl same ↦ elim (Bool-cases (l == i)) [
        | inl here ↦
            let ek : k ≡ j = ground arith in
            let el : l ≡ i = ground arith in rw (ek, el) (read_entry-write_entry mem table i v)
        | inr other ↦
            let ek : k ≡ j = ground arith in
            rw ek (
              write_entry_apart mem table i v (table + 8 * l) (ground arith)
              ∙ tree.level2 j l hj hl has
              ∙ sym (others (j * 512 + l) (ground arith)))
      ]
      | inr other ↦
          let ne : k ≢ j = ground arith in
          write_entry_apart mem table i v (table_at (t.tab k) + 8 * l)
            (omega (arith, tree.tabs_apart k j h has ne))
          ∙ tree.level2 k l hk hl h
          ∙ sym (others (k * 512 + l) (omega arith))
    ];
    blank = λ k l hl h. others (k * 512 + l) (λ same. differs k l hl h same) ∙ tree.blank k l hl h;
    root_apart = tree.root_apart;
    tab_apart = tree.tab_apart;
    tabs_apart = tree.tabs_apart;
    held0 = tree.held0;
    held1 = tree.held1;
    held = tree.held;
  }
    where
      table : ℕ
      table = table_at (t.tab j)

      v : ℕ
      v = e' (j * 512 + i)

      apart : (t.tab j ≢ p0) × (t.tab j ≢ p1) × (t.tab j < 2 ^ 24)
      apart = tree.tab_apart j has

      differs : (k l : ℕ) → l < 512 → t.has k ≡ false → k * 512 + l ≢ j * 512 + i
      differs k l hl h same = let ek : k ≡ j = omega arith in cc (h, has, ap t.has ek)
