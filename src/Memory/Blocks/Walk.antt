-- ===== src/Memory/Blocks/Walk.antt =====
-- mmu.c: `mmu_traverse_and_alloc_tables` to the level 2 table of a block, which may be a new one.
use pi_vos.Prelude.{
  ℕ, suc, ◌+◌, ◌*◌, ◌/◌, ◌%◌, ◌^◌, ◌≤◌, ◌<◌, ◌≡◌, ◌≢◌, refl, arith, ◌∙◌, sym, true, false, some, ap,
  inl, inr, ◌==◌, ◌||◌, if◌then◌else◌, Bool-cases,
}
use pi_vos.Word.{u32}
use pi_vos.Allocator.{Allocator}
use pi_vos.Allocator.Valid.{IsValid, is_claimed}
use pi_vos.Allocator.Sequence.{after, page_at, claims}
use pi_vos.Allocator.Sequence.Low.{free_low, free_low-lt, page_at-low}
use pi_vos.Mmu.Reg.{size_of_level_region}
use pi_vos.Mmu.Tables.{Memory, read_entry, new_table_entry}
use pi_vos.Mmu.Fill.{read_entry-write_entry}
use pi_vos.Mmu.Walk.{Machine, step_down, traverse, traverse_and_alloc_tables, ◌>>=◌}
use pi_vos.Mmu.Walk.Steps.{table_at, linked, step_table, step_empty}
use pi_vos.Mmu.Walk.Builds.{leads_to, linked_apart, linked_new}
use pi_vos.Memory.{source}
use pi_vos.Memory.Mapped.{takes}
use pi_vos.Memory.Blocks.{Shape, Tree}

-- A table more, in page `page`, for entry `j` of the level 1 table.
abbrev pub grown : Shape → ℕ → ℕ → Shape
grown t j page = record {
  tab = λ k. if k == j then page else t.tab k;
  has = λ k. (k == j) || t.has k;
  taken = suc t.taken;
}

module _ (a : Allocator) (v : IsValid a) (pages : a.page_size ≡ 4096) (p0 p1 : ℕ)
    (p1_small : p1 < 2 ^ 24) (t : Shape) (e : ℕ → ℕ) (mem : Memory) (j : ℕ) (small : j < 512)
    (tree : Tree a p0 p1 t e mem) where
  -- The new table.
  module _ (few : t.taken < free_low a) (none_yet : t.has j ≡ false) where
    abbrev page : ℕ
    page = page_at a t.taken

    abbrev with_table : Memory
    with_table = linked mem (table_at p1) j (table_at page)

    page_ne : (q : ℕ) → is_claimed (after a t.taken) q ≡ true → q ≢ page
    page_ne q held same = cc (
      (claims a t.taken v (free_low-lt a t.taken few)).was_free,
      held,
      ap (is_claimed (after a t.taken)) same,
    )

    still_held :
        (q : ℕ)
        → is_claimed (after a t.taken) q ≡ true
        → is_claimed (after a (suc t.taken)) q ≡ true
    still_held q held =
        ground (arith, held, (claims a t.taken v (free_low-lt a t.taken few)).marks q)

    now_held : is_claimed (after a (suc t.taken)) page ≡ true
    now_held = ground (arith, (claims a t.taken v (free_low-lt a t.taken few)).marks page)

    ne0 : p0 ≢ page
    ne0 = page_ne p0 tree.held0

    ne1 : p1 ≢ page
    ne1 = page_ne p1 tree.held1

    tabs_differ :
        (x k : ℕ)
        → (grown t j page).has x ≡ true
        → (grown t j page).has k ≡ true
        → x ≢ k
        → (grown t j page).tab x ≢ (grown t j page).tab k
    tabs_differ x k hx hk ne q = elim (Bool-cases (x == j)) [
      | inl same_x ↦ elim (Bool-cases (k == j)) [
        | inl same_k ↦ ne (ground arith)
        | inr other_k ↦
            let old : t.has k ≡ true = ground arith in
            page_ne (t.tab k) (tree.held k old) (ground arith)
      ]
      | inr other_x ↦
          let old_x : t.has x ≡ true = ground arith in
          elim (Bool-cases (k == j)) [
            | inl same_k ↦ page_ne (t.tab x) (tree.held x old_x) (ground arith)
            | inr other_k ↦
                let old_k : t.has k ≡ true = ground arith in
                tree.tabs_apart x k old_x old_k ne (ground arith)
          ]
    ]

    Tree-grown : Tree a p0 p1 (grown t j page) e with_table
    Tree-grown = record {
      root =
          linked_apart mem (table_at p1) j (table_at page) (table_at p0 + 8 * 0)
            (omega (arith, ne0)) (omega (arith, tree.root_apart))
          ∙ tree.root;
      level1 = λ k hk. elim (Bool-cases (k == j)) [
        | inl same ↦
            let at : k ≡ j = ground arith in
            rw (same, at)
              (read_entry-write_entry _ (table_at p1) j (new_table_entry (table_at page)))
        | inr other ↦ rw other (
            linked_apart mem (table_at p1) j (table_at page) (table_at p1 + 8 * k)
              (omega (arith, ne1)) (ground arith)
            ∙ tree.level1 k hk)
      ];
      level2 = λ k i hk hi h. elim (Bool-cases (k == j)) [
        | inl same ↦
            let at : k ≡ j = ground arith in
            rw (same, at)
              (linked_new mem (table_at p1) j (table_at page) i (omega (arith, ne1)) hi
                ∙ sym (tree.blank j i hi none_yet))
        | inr other ↦
            let old : t.has k ≡ true = ground arith in
            let apart = tree.tab_apart k old in
            rw other (
              linked_apart mem (table_at p1) j (table_at page) (table_at (t.tab k) + 8 * i)
                (omega (arith, page_ne (t.tab k) (tree.held k old))) (omega (arith, apart))
              ∙ tree.level2 k i hk hi old)
      ];
      blank = λ k i hi h. tree.blank k i hi (ground arith);
      root_apart = tree.root_apart;
      tab_apart = λ k h. elim (Bool-cases (k == j)) [
        | inl same ↦ rw same (λ q. ne0 (sym q), λ q. ne1 (sym q), page_at-low a t.taken v few)
        | inr other ↦ let old : t.has k ≡ true = ground arith in rw other (tree.tab_apart k old)
      ];
      tabs_apart = λ x k hx hk ne q. tabs_differ x k hx hk ne q;
      held0 = still_held p0 tree.held0;
      held1 = still_held p1 tree.held1;
      held = λ k h. elim (Bool-cases (k == j)) [
        | inl same ↦ rw same now_held
        | inr other ↦
            let old : t.has k ≡ true = ground arith in
            rw other (still_held (t.tab k) (tree.held k old))
      ];
    }

  module _ (i : ℕ) (i_small : i < 512) where
    abbrev pub address : ℕ
    address = (j * 512 + i) * 2 ^ 21

    at0 : u32 (address / size_of_level_region 0) ≡ 0
    at0 = omega arith

    at1 : u32 (address % size_of_level_region 0 / size_of_level_region 1) ≡ j
    at1 = omega arith

    at2 :
        u32 (address % size_of_level_region 0 % size_of_level_region 1 / size_of_level_region 2) ≡ i
    at2 = omega arith

    abbrev pub before : Machine source
    before = record { mem = mem; pages = after a t.taken }

    -- The walk to the block's table, with what it leaves.
    pub record Walked : Type 0 where
      pub shape : Shape
      pub out : Memory
      pub tree_after : Tree a p0 p1 shape e out
      pub has_table : shape.has j ≡ true
      pub at_most_one : shape.taken ≤ suc t.taken
      pub kept_table : t.has j ≡ true → shape.taken ≡ t.taken
      pub walks :
          traverse_and_alloc_tables source (table_at p0) 0 address 2 before
          ≡ some (
            record { table = table_at (shape.tab j); idx = i; level = 2 },
            record { mem = out; pages = after a shape.taken },
          )

    root_step : step_down source (table_at p0) 0 0 before ≡ some (table_at p1, before)
    root_step =
        let l = leads_to mem (table_at p0) 0 p1 p1_small tree.root in
        step_table source (table_at p0) 0 0 (table_at p1) before l.0 l.1

    pub walk_block : t.taken < free_low a → Walked
    unfolding traverse_and_alloc_tables traverse
    walk_block few = elim (Bool-cases (t.has j)) [
      | inl has ↦
          let entry : read_entry mem (table_at p1) j ≡ new_table_entry (table_at (t.tab j)) =
            tree.level1 j small ∙ rw has refl in
          let l = leads_to mem (table_at p1) j (t.tab j) (tree.tab_apart j has).2 entry in
          record {
            shape = t;
            out = mem;
            tree_after = tree;
            has_table = has;
            at_most_one = omega arith;
            kept_table = λ h. refl;
            walks =
                rw
                  (
                    ◌>>=◌,
                    at0,
                    root_step,
                    at1,
                    step_table source (table_at p1) j 1 (table_at (t.tab j)) before l.0 l.1,
                    at2,
                  )
                  refl;
          }
      | inr none_yet ↦
          let entry : read_entry mem (table_at p1) j ≡ 0 = tree.level1 j small ∙ rw none_yet refl in
          let new : j == j ≡ true = ground arith in
          record {
            shape = grown t j (page few none_yet);
            out = with_table few none_yet;
            tree_after = Tree-grown few none_yet;
            has_table = ground arith;
            at_most_one = omega arith;
            kept_table = λ h. cc (h, none_yet);
            walks =
                rw
                  (
                    ◌>>=◌,
                    at0,
                    root_step,
                    at1,
                    step_empty source (table_at p1) j 1 (page few none_yet) (after a (suc t.taken))
                        before (page_at-low a t.taken v few) entry
                        (takes a v pages t.taken (free_low-lt a t.taken few)),
                    at2,
                    new,
                  )
                  refl;
          }
    ]
