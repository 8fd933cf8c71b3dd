-- ===== src/Mmu/Destroy/Tests.antt =====
-- Tables whose entries are given by a function, and a page source that lists what is released.
use pi_vos.Prelude.{ℕ, ◌+◌, ◌≤◌, ◌≡◌, refl, arith, none, some, List, [], ◌∷◌, ◌==◌, if◌then◌else◌}
use pi_vos.Word.{to_kernel_space}
use pi_vos.Mmu.Reg.{empty_entry, table_fields, page_fields}
use pi_vos.Mmu.Tables.{
  Memory, write_entry, get_subtable, get_next_level_table_from_table_entry,
  get_address_from_page_entry,
}
use pi_vos.Mmu.Walk.{PageSource}
use pi_vos.Mmu.Walk.Steps.{table_at}
use pi_vos.Mmu.Destroy.{destroy_entry, destroy_loop}
use pi_vos.Mmu.Destroy.Release.{each, release_entry, release_table, rounds, EndsWell}
use pi_vos.Mmu.Destroy.Loop.{at_entry}
use pi_vos.Mmu.Destroy.Refine.{destroy_entry-release_table}
use pi_vos.Mmu.Destroy.Overrun.{last_table_overruns}

abbrev released : PageSource
released = record {
  State = List ℕ;
  pages_alloc = λ number align list. none;
  pages_dealloc = λ addr number list. some (addr ∷ list);
}

-- Entry 0 of page 1 and entry 511 of page 3 lead to page 2, which holds page 7.
abbrev two_levels : Memory
two_levels addr =
    if addr == table_at 1
    then 0x2003
    else if addr == table_at 2
    then 0x7003
    else if addr == table_at 3 + 4088
    then 0x2003
    else 0

subtable_two :
    (get_subtable two_levels (table_at 1) 0 ≡ table_at 2)
    × (get_subtable two_levels (table_at 3) 511 ≡ table_at 2)
unfolding get_subtable to_kernel_space get_next_level_table_from_table_entry table_fields
subtable_two = (refl, refl)

release_two : release_table released 0 two_levels (table_at 2) [] ≡ some (table_at 2 ∷ 0x7000 ∷ [])
unfolding release_table each release_entry get_address_from_page_entry page_fields
release_two = refl

ends_two :
    EndsWell released 0 two_levels (get_subtable two_levels (table_at 1) 0)
    × EndsWell released 0 two_levels (get_subtable two_levels (table_at 3) 511)
unfolding EndsWell
ends_two = (tt, tt)

rounds_zero : rounds released 0 ≤ 512
unfolding rounds
rounds_zero = omega arith

destroy_entry-release_table_example :
    destroy_entry released 512 (table_at 1) 0 2 (record { mem = two_levels; pages = [] })
    ≡ elim (release_table released 0 two_levels (get_subtable two_levels (table_at 1) 0) []) [
      | none ↦ none
      | some s1 ↦
          some (tt, record { mem = write_entry two_levels (table_at 1) 0 empty_entry; pages = s1 })
    ]
destroy_entry-release_table_example =
    destroy_entry-release_table released two_levels 512 0 (table_at 1) 0 2 [] refl refl ends_two.0
      rounds_zero

last_table_overruns_example :
    (cost : ℕ) × (cost ≤ rounds released 0)
    × ((more : ℕ)
        → destroy_loop released
            (1 + cost + 100 + more)
            (at_entry (table_at 3) 511 2 ∷ [])
            (record { mem = two_levels; pages = [] })
          ≡ destroy_loop released more
              (at_entry (table_at 3) (512 + 100) 2 ∷ [])
              (record { mem = two_levels; pages = table_at 2 ∷ 0x7000 ∷ [] }))
last_table_overruns_example =
    last_table_overruns released two_levels (table_at 3) 2 [] (table_at 2 ∷ 0x7000 ∷ []) 0 100 []
      refl refl ends_two.1 (rw (subtable_two.1) release_two) (omega arith)
      (λ i low high. ground arith)
