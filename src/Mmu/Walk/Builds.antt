-- ===== src/Mmu/Walk/Builds.antt =====
-- mmu.c: `mmu_traverse_and_alloc_tables` where the entry of the level 0 table is empty.
use pi_vos.Prelude.{
  ℕ, ◌+◌, ◌*◌, ◌/◌, ◌%◌, ◌^◌, ◌<◌, ◌≡◌, ◌≢◌, refl, arith, some, ◌∙◌, ◌==◌, if◌then◌else◌,
  Bool-cases, inl, inr,
}
use pi_vos.Word.{u32}
use pi_vos.Mmu.Reg.{table_entry, size_of_level_region}
use pi_vos.Mmu.Tables.{Memory, read_entry, type_of, get_subtable, new_table_entry}
use pi_vos.Mmu.Entries.{new_table_entry_lem}
use pi_vos.Mmu.Fill.{IsApart, write_entry_apart, read_entry-write_entry}
use pi_vos.Mmu.Walk.{PageSource, Machine, traverse, traverse_and_alloc_tables, ◌>>=◌}
use pi_vos.Mmu.Walk.Steps.{table_at, clear_table_apart, clear_table_inside, linked, step_empty}
use pi_vos.Mmu.Translate.{WalksTo3, idx0, idx1, idx2, idx3}

pub linked_apart :
    (mem : Memory) (table idx new addr : ℕ)
    → IsApart new addr
    → addr ≢ table + 8 * idx
    → linked mem table idx new addr ≡ mem addr
linked_apart mem table idx new addr out ne =
    write_entry_apart _ table idx (new_table_entry new) addr ne ∙ clear_table_apart mem new addr out

-- The new table is empty.
pub linked_new :
    (mem : Memory) (table idx new i : ℕ)
    → IsApart new (table + 8 * idx)
    → i < 512
    → read_entry (linked mem table idx new) new i ≡ 0
linked_new mem table idx new i out h =
    write_entry_apart _ table idx (new_table_entry new) (new + 8 * i) (omega arith)
    ∙ clear_table_inside mem new i h

-- The entries of a table that was empty.
linked_entry :
    (mem : Memory) (table idx new i : ℕ)
    → IsApart new (table + 8 * i)
    → read_entry mem table i ≡ 0
    → read_entry (linked mem table idx new) table i ≡ (if i == idx then new_table_entry new else 0)
linked_entry mem table idx new i out blank = elim (Bool-cases (i == idx)) [
  | inl here ↦
      let e : i ≡ idx = ground arith in
      rw (here, e) (read_entry-write_entry _ table idx (new_table_entry new))
  | inr other ↦ rw other (linked_apart mem table idx new (table + 8 * i) out (ground arith) ∙ blank)
]

pub leads_to :
    (mem : Memory) (table idx page : ℕ)
    → page < 2 ^ 24
    → read_entry mem table idx ≡ new_table_entry (table_at page)
    → (type_of (read_entry mem table idx) ≡ table_entry)
      × (get_subtable mem table idx ≡ table_at page)
unfolding get_subtable
leads_to mem table idx page h e = rw e (new_table_entry_lem page h)

-- The tables of the walk for `va`: pages `p0` to `p2`, the last two with no other entry, lead to page
-- `p3`.
pub record Tables (mem : Memory) (va p0 p1 p2 p3 : ℕ) : Type 0 where
  pub root : read_entry mem (table_at p0) (idx0 va) ≡ new_table_entry (table_at p1)
  pub first :
      (i : ℕ)
      → i < 512
      → read_entry mem (table_at p1) i ≡ (if i == idx1 va then new_table_entry (table_at p2) else 0)
  pub second :
      (i : ℕ)
      → i < 512
      → read_entry mem (table_at p2) i ≡ (if i == idx2 va then new_table_entry (table_at p3) else 0)

module _ (mem : Memory) (va p0 p1 p2 p3 : ℕ) (tables : Tables mem va p0 p1 p2 p3) where
  pub first_entry : read_entry mem (table_at p1) (idx1 va) ≡ new_table_entry (table_at p2)
  first_entry = ground (arith, tables.first (idx1 va))

  pub second_entry : read_entry mem (table_at p2) (idx2 va) ≡ new_table_entry (table_at p3)
  second_entry = ground (arith, tables.second (idx2 va))

  -- Words outside page `p3` are all that the walk depends on.
  pub Tables-kept :
      (later : Memory)
      → va < 2 ^ 48
      → (p0 ≢ p3) × (p1 ≢ p3) × (p2 ≢ p3)
      → ((addr : ℕ) → IsApart (table_at p3) addr → later addr ≡ mem addr)
      → Tables later va p0 p1 p2 p3
  Tables-kept later fits ne same = record {
    root = same (table_at p0 + 8 * idx0 va) (omega arith) ∙ tables.root;
    first = λ i h. same (table_at p1 + 8 * i) (omega arith) ∙ tables.first i h;
    second = λ i h. same (table_at p2 + 8 * i) (omega arith) ∙ tables.second i h;
  }

  -- The walk for an address of the same 2 MB leads to page `p3`.
  pub Tables-WalksTo3 :
      (va1 : ℕ)
      → va1 / 2 ^ 21 ≡ va / 2 ^ 21
      → (p1 < 2 ^ 24) × (p2 < 2 ^ 24) × (p3 < 2 ^ 24)
      → WalksTo3 mem (table_at p0) va1 (table_at p3)
  Tables-WalksTo3 va1 near small =
      let at0 : idx0 va1 ≡ idx0 va = omega arith in
      let at1 : idx1 va1 ≡ idx1 va = omega arith in
      let at2 : idx2 va1 ≡ idx2 va = omega arith in
      let l0 = leads_to mem (table_at p0) (idx0 va1) p1 small.0 (rw at0 tables.root) in
      let l1 = leads_to mem (table_at p1) (idx1 va1) p2 small.1 (rw at1 first_entry) in
      let l2 = leads_to mem (table_at p2) (idx2 va1) p3 small.2 (rw at2 second_entry) in
      record {
        t2 = table_at p2;
        above = record { t1 = table_at p1; entry0 = l0.0; sub0 = l0.1; entry1 = l1.0; sub1 = l1.1 };
        entry2 = l2.0;
        sub2 = l2.1;
      }

-- Where the level 0 entry of the address is empty and the page source gives three pages, apart from
-- each other and from the level 0 table.
module _ (source : PageSource) (va p0 p1 p2 p3 : ℕ) (s1 s2 s3 : source.State) (m : Machine source)
    (small : va < 2 ^ 48) (small1 : p1 < 2 ^ 24) (small2 : p2 < 2 ^ 24) (small3 : p3 < 2 ^ 24)
    (ne01 : p0 ≢ p1) (ne02 : p0 ≢ p2) (ne03 : p0 ≢ p3) (ne12 : p1 ≢ p2) (ne13 : p1 ≢ p3)
    (ne23 : p2 ≢ p3) (empty : read_entry m.mem (table_at p0) (idx0 va) ≡ 0)
    (alloc1 : source.pages_alloc 1 1 m.pages ≡ some (p1 * 4096, s1))
    (alloc2 : source.pages_alloc 1 1 s1 ≡ some (p2 * 4096, s2))
    (alloc3 : source.pages_alloc 1 1 s2 ≡ some (p3 * 4096, s3)) where
  abbrev mem1 : Memory
  mem1 = linked m.mem (table_at p0) (idx0 va) (table_at p1)

  abbrev mem2 : Memory
  mem2 = linked mem1 (table_at p1) (idx1 va) (table_at p2)

  abbrev built : Memory
  built = linked mem2 (table_at p2) (idx2 va) (table_at p3)

  traverse_builds :
      traverse_and_alloc_tables source (table_at p0) 0 va 3 m
      ≡ some (
        record { table = table_at p3; idx = idx3 va; level = 3 },
        record { mem = built; pages = s3 },
      )
  unfolding traverse_and_alloc_tables traverse
  traverse_builds =
      rw
        (
          ◌>>=◌,
          i0,
          step_empty source (table_at p0) (idx0 va) 0 p1 s1 m small1 empty alloc1,
          i1,
          step_empty source (table_at p1) (idx1 va) 1 p2 s2 (record { mem = mem1; pages = s1 })
              small2
              (linked_new m.mem (table_at p0) (idx0 va) (table_at p1) (idx1 va) (omega arith)
                (omega arith))
              alloc2,
          i2,
          step_empty source (table_at p2) (idx2 va) 2 p3 s3 (record { mem = mem2; pages = s2 })
              small3
              (linked_new mem1 (table_at p1) (idx1 va) (table_at p2) (idx2 va) (omega arith)
                (omega arith))
              alloc3,
          i3,
        )
        refl
    where
      i0 : u32 (va / size_of_level_region 0) ≡ idx0 va
      i0 = omega arith

      i1 : u32 (va % size_of_level_region 0 / size_of_level_region 1) ≡ idx1 va
      i1 = omega arith

      i2 :
          u32 (va % size_of_level_region 0 % size_of_level_region 1 / size_of_level_region 2)
          ≡ idx2 va
      i2 = omega arith

      i3 :
          u32 (
            va
            % size_of_level_region 0
            % size_of_level_region 1
            % size_of_level_region 2
            / size_of_level_region 3)
          ≡ idx3 va
      i3 = omega arith

  entry0_lem : read_entry built (table_at p0) (idx0 va) ≡ new_table_entry (table_at p1)
  entry0_lem =
      linked_apart mem2 (table_at p2) (idx2 va) (table_at p3) (table_at p0 + 8 * idx0 va)
        (omega arith) (omega arith)
      ∙ linked_apart mem1 (table_at p1) (idx1 va) (table_at p2) (table_at p0 + 8 * idx0 va)
          (omega arith) (omega arith)
      ∙ read_entry-write_entry _ (table_at p0) (idx0 va) (new_table_entry (table_at p1))

  entry1_lem :
      (i : ℕ)
      → i < 512
      → read_entry built (table_at p1) i
        ≡ (if i == idx1 va then new_table_entry (table_at p2) else 0)
  entry1_lem i h =
      linked_apart mem2 (table_at p2) (idx2 va) (table_at p3) (table_at p1 + 8 * i) (omega arith)
        (omega arith)
      ∙ linked_entry mem1 (table_at p1) (idx1 va) (table_at p2) i (omega arith)
          (linked_new m.mem (table_at p0) (idx0 va) (table_at p1) i (omega arith) h)

  entry2_lem :
      (i : ℕ)
      → i < 512
      → read_entry built (table_at p2) i
        ≡ (if i == idx2 va then new_table_entry (table_at p3) else 0)
  entry2_lem i h =
      linked_entry mem2 (table_at p2) (idx2 va) (table_at p3) i (omega arith)
        (linked_new mem1 (table_at p1) (idx1 va) (table_at p2) i (omega arith) h)

  -- The new level 3 table is empty.
  built-IsEmpty : (i : ℕ) → i < 512 → read_entry built (table_at p3) i ≡ 0
  built-IsEmpty i h = linked_new mem2 (table_at p2) (idx2 va) (table_at p3) i (omega arith) h

  -- Other words of memory are left as they were.
  built_outside :
      (addr : ℕ)
      → IsApart (table_at p1) addr
      → IsApart (table_at p2) addr
      → IsApart (table_at p3) addr
      → addr ≢ table_at p0 + 8 * idx0 va
      → built addr ≡ m.mem addr
  built_outside addr out1 out2 out3 ne =
      linked_apart mem2 (table_at p2) (idx2 va) (table_at p3) addr out3 (omega arith)
      ∙ linked_apart mem1 (table_at p1) (idx1 va) (table_at p2) addr out2 (omega arith)
      ∙ linked_apart m.mem (table_at p0) (idx0 va) (table_at p1) addr out1 ne

  -- What the walk builds: its tables, the last one empty, with no word changed but those of the new
  -- tables and the level 0 entry.
  pub traverse-Tables :
      (mem : Memory) × (traverse_and_alloc_tables source (table_at p0) 0 va 3 m
        ≡ some (
          record { table = table_at p3; idx = idx3 va; level = 3 },
          record { mem = mem; pages = s3 },
        ))
      × ((i : ℕ) → i < 512 → read_entry mem (table_at p3) i ≡ 0)
      × Tables mem va p0 p1 p2 p3
      × ((addr : ℕ)
          → IsApart (table_at p1) addr
          → IsApart (table_at p2) addr
          → IsApart (table_at p3) addr
          → addr ≢ table_at p0 + 8 * idx0 va
          → mem addr ≡ m.mem addr)
  traverse-Tables = (
    built,
    traverse_builds,
    built-IsEmpty,
    record { root = entry0_lem; first = entry1_lem; second = entry2_lem },
    built_outside,
  )
