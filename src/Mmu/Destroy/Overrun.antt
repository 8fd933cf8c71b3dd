-- ===== src/Mmu/Destroy/Overrun.antt =====
-- mmu.c: the loop of `mmu_destroy_entry` on a table whose last entry leads to a table.
use pi_vos.Prelude.{
  ℕ, zero, suc, ◌+◌, ◌%◌, ◌^◌, ◌≤◌, ◌<◌, ◌≡◌, refl, arith, false, ◌∙◌, some, List, ◌∷◌, ◌==◌,
}
use pi_vos.Word.{u32}
use pi_vos.Mmu.Reg.{entries_per_table}
use pi_vos.Mmu.Tables.{Memory, read_entry, get_subtable}
use pi_vos.Mmu.Walk.{PageSource, EntryInfo, ◌>>=◌}
use pi_vos.Mmu.Destroy.{destroy_loop, visit, leave}
use pi_vos.Mmu.Destroy.Release.{release_table, rounds, EndsWell, go_on, valid_bit}
use pi_vos.Mmu.Destroy.Loop.{at_entry}
use pi_vos.Mmu.Destroy.Rounds.{visit_table}
use pi_vos.Mmu.Destroy.Refine.{table_runs}

module _ (source : PageSource) (mem : Memory) (table level : ℕ) (below : List EntryInfo)
    (s : source.State) where
  -- Behind the table's end an even word is skipped, as an empty entry is.
  skip_behind :
      (left idx more : ℕ)
      → 512 ≤ idx
      → idx + left < 2 ^ 32
      → ((i : ℕ) → idx ≤ i → i < idx + left → read_entry mem table i % 2 ≡ 0)
      → destroy_loop source
          (left + more)
          (at_entry table idx level ∷ below)
          (record { mem = mem; pages = s })
        ≡ destroy_loop source more
            (at_entry table (idx + left) level ∷ below)
            (record { mem = mem; pages = s })
  unfolding destroy_loop visit leave
  skip_behind zero idx more behind small even =
      let here : idx + 0 ≡ idx = omega arith in
      let all : 0 + more ≡ more = omega arith in rw (here, all) refl
  skip_behind (suc left) idx more behind small even =
      let fuel : suc left + more ≡ suc (left + more) = omega arith in
      let there : idx + suc left ≡ idx + 1 + left = omega arith in
      let next : u32 (idx + 1) ≡ idx + 1 = omega arith in
      let on : (idx + 1 == entries_per_table) ≡ false = ground arith in
      let e : read_entry mem table idx % 2 ≡ 0 = even idx (omega arith) (omega arith) in
      rw (fuel, there, ◌>>=◌, valid_bit source (read_entry mem table idx), e, next, on)
        (skip_behind left (idx + 1) more (omega arith) (omega arith)
          λ i low high. even i (omega arith) (omega arith))

  -- Where the last entry of a table above level 3 leads to a table which, as all tables below it, has
  -- no table behind its own last entry and whose recursive release succeeds, and the `count` words
  -- behind the first table are even, with `512 + count` below `2 ^ 32`, the loop releases the table that is led to, in at most its rounds, and does not
  -- release the table itself: `count` rounds later it is about to read entry `512 + count`.
  pub last_table_overruns :
      (depth count : ℕ) (s0 : source.State)
      → level + suc depth ≡ 3
      → read_entry mem table 511 % 4 ≡ 3
      → EndsWell source depth mem (get_subtable mem table 511)
      → release_table source depth mem (get_subtable mem table 511) s0 ≡ some s
      → 512 + count < 2 ^ 32
      → ((i : ℕ) → 512 ≤ i → i < 512 + count → read_entry mem table i % 2 ≡ 0)
      → (cost : ℕ) × (cost ≤ rounds source depth)
        × ((more : ℕ)
            → destroy_loop source
                (1 + cost + count + more)
                (at_entry table 511 level ∷ below)
                (record { mem = mem; pages = s0 })
              ≡ destroy_loop source more
                  (at_entry table (512 + count) level ∷ below)
                  (record { mem = mem; pages = s }))
  unfolding destroy_loop leave
  last_table_overruns depth count s0 h leads ends released small even =
      let (cost, le, run) =
        table_runs source mem depth (get_subtable mem table 511) (level + 1) (omega arith) ends in
      let on =
        visit_table source mem table level 511 (omega arith) below s0 (ground arith) (omega arith)
          (ground arith) in
      (
        cost,
        le,
        λ more.
            let fuel : 1 + cost + count + more ≡ suc (cost + (count + more)) = omega arith in
            rw (fuel, ◌>>=◌, on)
              (run (count + more) (at_entry table 512 level ∷ below) s0
                ∙ rw (go_on, released) (skip_behind count 512 more (omega arith) small even)),
      )
