-- ===== src/Mmu/Walk/Steps.antt =====
-- mmu.c: one step of `mmu_traverse_and_alloc_tables`, and the walk through tables that exist.
use pi_vos.Prelude.{ℕ, ◌+◌, ◌*◌, ◌/◌, ◌%◌, ◌^◌, ◌<◌, ◌≡◌, refl, arith, some}
use pi_vos.Word.{u32, kernel_space_mask}
use pi_vos.Mmu.Reg.{table_entry, size_of_level_region}
use pi_vos.Mmu.Tables.{
  Memory, read_entry, write_entry, clear_table, type_of, get_subtable, new_table_entry,
  create_table_entry,
}
use pi_vos.Mmu.Entries.{to_kernel_space_lem}
use pi_vos.Mmu.Fill.{IsApart}
use pi_vos.Mmu.Walk.{
  PageSource, Machine, step_down, create_subtable, create_table, traverse,
  traverse_and_alloc_tables, ◌>>=◌,
}
use pi_vos.Mmu.Translate.{WalksTo3, idx0, idx1, idx2, idx3}

-- The kernel's pointer to page `p`.
abbrev pub table_at : ℕ → ℕ
table_at p = p * 4096 + kernel_space_mask

pub clear_table_apart :
    (mem : Memory) (table addr : ℕ) → IsApart table addr → clear_table mem table addr ≡ mem addr
unfolding clear_table
clear_table_apart mem table addr h = ground arith

pub clear_table_inside :
    (mem : Memory) (table i : ℕ) → i < 512 → read_entry (clear_table mem table) table i ≡ 0
unfolding clear_table
clear_table_inside mem table i h = ground arith

-- Memory after an empty entry got a new table.
abbrev pub linked : Memory → ℕ → ℕ → ℕ → Memory
linked mem table idx new = write_entry (clear_table mem new) table idx (new_table_entry new)

module _ (source : PageSource) where
  pub step_table :
      (table idx level next : ℕ) (m : Machine source)
      → type_of (read_entry m.mem table idx) ≡ table_entry
      → get_subtable m.mem table idx ≡ next
      → step_down source table idx level m ≡ some (next, m)
  unfolding step_down
  step_table table idx level next m e s = rw (◌>>=◌, e, s) refl

  -- Through tables that exist the walk allocates nothing.
  pub traverse_walks :
      (t0 va t3 : ℕ) (m : Machine source)
      → va < 2 ^ 48
      → WalksTo3 m.mem t0 va t3
      → traverse_and_alloc_tables source t0 0 va 3 m
        ≡ some (record { table = t3; idx = idx3 va; level = 3 }, m)
  unfolding traverse_and_alloc_tables traverse
  traverse_walks t0 va t3 m small w = rw (
    ◌>>=◌,
    i0,
    step_table t0 (idx0 va) 0 w.above.t1 m w.above.entry0 w.above.sub0,
    i1,
    step_table w.above.t1 (idx1 va) 1 w.t2 m w.above.entry1 w.above.sub1,
    i2,
    step_table w.t2 (idx2 va) 2 t3 m w.entry2 w.sub2,
    i3,
  )
    where
      i0 : u32 (va / size_of_level_region 0) ≡ idx0 va
      i0 = omega arith

      i1 : u32 (va % size_of_level_region 0 / size_of_level_region 1) ≡ idx1 va
      i1 = omega arith

      i2 :
          u32 (va % size_of_level_region 0 % size_of_level_region 1 / size_of_level_region 2)
          ≡ idx2 va
      i2 = omega arith

      i3 :
          u32 (
            va
            % size_of_level_region 0
            % size_of_level_region 1
            % size_of_level_region 2
            / size_of_level_region 3)
          ≡ idx3 va
      i3 = omega arith

  pub step_empty :
      (table idx level page : ℕ) (pages : source.State) (m : Machine source)
      → page < 2 ^ 24
      → read_entry m.mem table idx ≡ 0
      → source.pages_alloc 1 1 m.pages ≡ some (page * 4096, pages)
      → step_down source table idx level m
        ≡ some
            (table_at page, record { mem = linked m.mem table idx (table_at page); pages = pages })
  unfolding step_down create_subtable create_table create_table_entry
  step_empty table idx level page pages m small e a =
      rw (◌>>=◌, e, create_table, a, to_kernel_space_lem (page * 4096) (omega arith)) refl
