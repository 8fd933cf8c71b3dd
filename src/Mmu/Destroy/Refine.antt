-- ===== src/Mmu/Destroy/Refine.antt =====
-- mmu.c: the loop of `mmu_destroy_entry` on whole tables, and `mmu_destroy_entry` itself.
use pi_vos.Prelude.{
  ℕ, zero, suc, ◌+◌, ◌-◌, ◌%◌, ◌≤◌, ◌<◌, ◌≡◌, ◌≢◌, refl, arith, false, ◌∙◌, ap, Option, none, some,
  List, [], ◌∷◌, ◌==◌, ◌&&◌, if◌then◌else◌, Bool-cases, inl, inr,
}
use pi_vos.Mmu.Tables.{Memory, read_entry, get_subtable, write_entry, type_of}
use pi_vos.Mmu.Reg.{empty_entry, block_entry, are_block_entries_supported}
use pi_vos.Mmu.Entries.{type_of_lem}
use pi_vos.Mmu.Walk.{PageSource, EntryInfo, changes, ◌>>=◌, ◌>>◌}
use pi_vos.Mmu.Destroy.{destroy_loop, leave, destroy_entry}
use pi_vos.Mmu.Destroy.Release.{Release, release_table, rounds, EndsWell, go_on}
use pi_vos.Mmu.Destroy.Loop.{at_entry, moves_on, entries_run}
use pi_vos.Mmu.Destroy.Rounds.{one_round, entry-Runs, visit_table, visit_page}

module _ (source : PageSource) (mem : Memory) where
  -- A round that steps into a table, whose rounds are known, and back.
  pub into_table :
      (table level idx cost : ℕ) (release : Release source)
      → idx < 512
      → (level == 3) ≡ false
      → read_entry mem table idx % 2 ≡ 1
      → (read_entry mem table idx % 4 == 1) ≡ false
      → (idx == 511) ≡ false
      → ((fuel : ℕ) (below : List EntryInfo) (s : source.State)
          → destroy_loop source
              (cost + fuel)
              (at_entry (get_subtable mem table idx) 0 (level + 1) ∷ below)
              (record { mem = mem; pages = s })
            ≡ go_on source release fuel below mem s)
      → (fuel : ℕ) (below : List EntryInfo) (s : source.State)
      → destroy_loop source
          (1 + cost + fuel)
          (at_entry table idx level ∷ below)
          (record { mem = mem; pages = s })
        ≡ moves_on source mem table level release idx fuel below s
  unfolding destroy_loop leave
  into_table table level idx cost release small above odd leads more run fuel below s =
      ap
        (λ f.
          destroy_loop source f (at_entry table idx level ∷ below)
            (record { mem = mem; pages = s }))
        next
      ∙ (step ∙ run fuel (at_entry table (idx + 1) level ∷ below) s ∙ rw (if◌then◌else◌, more) refl)
    where
      next : 1 + cost + fuel ≡ suc (cost + fuel)
      next = omega arith

      step :
          destroy_loop source
            (suc (cost + fuel))
            (at_entry table idx level ∷ below)
            (record { mem = mem; pages = s })
          ≡ destroy_loop source
              (cost + fuel)
              (at_entry (get_subtable mem table idx) 0 (level + 1)
                ∷ at_entry table (idx + 1) level
                ∷ below)
              (record { mem = mem; pages = s })
      step = rw (◌>>=◌, visit_table source mem table level idx small below s above odd leads) refl

  not_last :
      (table idx : ℕ)
      → read_entry mem table idx % 2 ≡ 1
      → (read_entry mem table idx % 4 == 1) ≡ false
      → read_entry mem table 511 % 4 ≢ 3
      → (idx == 511) ≡ false
  not_last table idx odd leads ends = elim (Bool-cases (idx == 511)) [
    | inl last ↦
        let e : idx ≡ 511 = ground arith in
        let same : read_entry mem table idx ≡ read_entry mem table 511 =
          ap (read_entry mem table) e in
        absurd (ends (ground (arith, same)))
    | inr more ↦ more
  ]

  pub table_runs :
      (depth table level : ℕ)
      → level + depth ≡ 3
      → EndsWell source depth mem table
      → (cost : ℕ) × (cost ≤ rounds source depth)
        × ((fuel : ℕ) (below : List EntryInfo) (s : source.State)
            → destroy_loop source
                (cost + fuel)
                (at_entry table 0 level ∷ below)
                (record { mem = mem; pages = s })
              ≡ go_on source (release_table source depth mem table) fuel below mem s)
  unfolding release_table rounds EndsWell
  table_runs zero table level h ends =
      let l : level ≡ 3 = omega arith in
      rw l (
        entries_run source mem table 3 _ 1
          (λ idx small. entry-Runs source mem table 3 idx small _ 1 (omega arith) λ odd leads.
            one_round source mem table 3 idx small _ 1 (omega arith)
              λ below s o e. visit_page source mem table 3 idx small below s o refl odd leads e)
          511 0 refl)
  table_runs (suc depth) table level h ends =
      let l : level ≡ 2 - depth = omega arith in
      rw l (
        entries_run source mem table (2 - depth) _ (1 + rounds source depth)
          (λ idx small.
            entry-Runs source mem table (2 - depth) idx small _ (1 + rounds source depth)
              (omega arith)
              λ odd leads.
                let (cost, le, run) =
                  table_runs depth (get_subtable mem table idx) (2 - depth + 1) (omega arith)
                    (ends.1 idx small (ground arith)) in
                (
                  1 + cost,
                  omega arith,
                  into_table table (2 - depth) idx cost _ small (ground arith) odd leads
                      (not_last table idx odd leads ends.0) run,
                ))
          511 0 refl)

  finish :
      (release : Release source) (fuel table idx : ℕ) (s : source.State) (o : Option source.State)
      → release s ≡ o
      → ((λ m. go_on source release fuel [] mem s)
            >> changes (λ mem1. write_entry mem1 table idx empty_entry))
          (record { mem = mem; pages = s })
        ≡ elim o [
          | none ↦ none
          | some s1 ↦ some (tt, record { mem = write_entry mem table idx empty_entry; pages = s1 })
        ]
  unfolding destroy_loop
  finish release fuel table idx s none e = rw (◌>>◌, ◌>>=◌, go_on, e) refl
  finish release fuel table idx s (some s1) e = rw (◌>>◌, ◌>>=◌, go_on, e) refl

  -- `mmu_destroy_entry` of an entry that leads to a table, with fuel for the rounds of that table:
  -- it releases what the recursive description says, in that order, then empties the entry, where
  -- no last entry of a table above level 3 leads to a table.
  pub destroy_entry-release_table :
      (fuel depth table idx level : ℕ) (s : source.State)
      → level + suc depth ≡ 3
      → read_entry mem table idx % 4 ≡ 3
      → EndsWell source depth mem (get_subtable mem table idx)
      → rounds source depth ≤ fuel
      → destroy_entry source fuel table idx level (record { mem = mem; pages = s })
        ≡ elim (release_table source depth mem (get_subtable mem table idx) s) [
          | none ↦ none
          | some s1 ↦ some (tt, record { mem = write_entry mem table idx empty_entry; pages = s1 })
        ]
  unfolding destroy_entry
  destroy_entry-release_table fuel depth table idx level s h leads ends enough =
      let (cost, le, run) =
        table_runs depth (get_subtable mem table idx) (level + 1) (omega arith) ends in
      let l : (level == 3) ≡ false = ground arith in
      let b : (are_block_entries_supported level
            && (type_of (read_entry mem table idx) == block_entry))
          ≡ false =
        ground (arith, type_of_lem (read_entry mem table idx)) in
      let loop : destroy_loop source fuel (at_entry (get_subtable mem table idx) 0 (level + 1) ∷ [])
            (record { mem = mem; pages = s })
          ≡ go_on source (release_table source depth mem (get_subtable mem table idx)) (fuel - cost)
              [] mem s =
        ap
          (λ f.
            destroy_loop source f (at_entry (get_subtable mem table idx) 0 (level + 1) ∷ [])
              (record { mem = mem; pages = s }))
          (omega arith)
        ∙ run (fuel - cost) [] s in
      rw (◌>>=◌, l, b, ◌>>◌, loop)
        (finish (release_table source depth mem (get_subtable mem table idx)) (fuel - cost) table
          idx s _ refl)
