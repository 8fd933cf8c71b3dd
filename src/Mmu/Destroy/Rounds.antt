-- ===== src/Mmu/Destroy/Rounds.antt =====
-- mmu.c: a round of the loop of `mmu_destroy_entry`, by the kind of the entry.
use mathlib.Core.Path.{subst}
use pi_vos.Prelude.{
  ℕ, ◌+◌, ◌/◌, ◌%◌, ◌<◌, ◌≡◌, refl, sym, arith, true, false, ◌∙◌, ap, Option, none, some, List, ◌∷◌,
  ◌==◌, inl, inr, Bool-cases,
}
use pi_vos.Word.{u32}
use pi_vos.Mmu.Reg.{page_size, size_of_level_region}
use pi_vos.Mmu.Tables.{
  Memory, read_entry, get_subtable, get_address_from_page_entry, get_address_from_block_entry,
}
use pi_vos.Mmu.Walk.{PageSource, EntryInfo, ◌>>=◌, ◌>>◌}
use pi_vos.Mmu.Destroy.{destroy_loop, visit, destroy_page_entry, destroy_block_entry, pages_dealloc}
use pi_vos.Mmu.Destroy.Release.{Release, release_entry, valid_bit, descriptor_bit}
use pi_vos.Mmu.Destroy.Loop.{at_entry, at_state, Runs, round_leaf}

module _ (source : PageSource) (mem : Memory) (table level idx : ℕ) (small : idx < 512) where
  abbrev entry : ℕ
  entry = read_entry mem table idx

  next : u32 (idx + 1) ≡ idx + 1
  next = omega arith

  visit_skip :
      (below : List EntryInfo) (s : source.State)
      → entry % 2 ≡ 0
      → visit source (at_entry table idx level) below (at_state source mem table level s)
        ≡ some (at_entry table (idx + 1) level ∷ below, at_state source mem table level s)
  unfolding visit
  visit_skip below s e = rw (◌>>=◌, valid_bit source entry, e, next) refl

  visit_block :
      (below : List EntryInfo) (s : source.State) (o : Option source.State)
      → (entry % 4 == 1) ≡ true
      → source.pages_dealloc
          (get_address_from_block_entry entry level)
          (u32 (size_of_level_region level / page_size))
          s
        ≡ o
      → visit source (at_entry table idx level) below (at_state source mem table level s) ≡ elim o [
        | none ↦ none
        | some s1 ↦
            some (at_entry table (idx + 1) level ∷ below, at_state source mem table level s1)
      ]
  unfolding visit destroy_block_entry pages_dealloc
  visit_block below s none e d =
      let odd : entry % 2 ≡ 1 = ground arith in
      rw (◌>>=◌, valid_bit source entry, odd, descriptor_bit source entry odd, e, ◌>>◌, d) refl
  visit_block below s (some s1) e d =
      let odd : entry % 2 ≡ 1 = ground arith in
      rw (◌>>=◌, valid_bit source entry, odd, descriptor_bit source entry odd, e, ◌>>◌, d, next)
        refl

  pub visit_page :
      (below : List EntryInfo) (s : source.State) (o : Option source.State)
      → (level == 3) ≡ true
      → entry % 2 ≡ 1
      → (entry % 4 == 1) ≡ false
      → source.pages_dealloc (get_address_from_page_entry entry) 1 s ≡ o
      → visit source (at_entry table idx level) below (at_state source mem table level s) ≡ elim o [
        | none ↦ none
        | some s1 ↦
            some (at_entry table (idx + 1) level ∷ below, at_state source mem table level s1)
      ]
  unfolding visit destroy_page_entry pages_dealloc
  visit_page below s none l odd e d =
      rw (◌>>=◌, valid_bit source entry, odd, descriptor_bit source entry odd, e, l, ◌>>◌, d) refl
  visit_page below s (some s1) l odd e d =
      rw (◌>>=◌, valid_bit source entry, odd, descriptor_bit source entry odd, e, l, ◌>>◌, d, next)
        refl

  pub visit_table :
      (below : List EntryInfo) (s : source.State)
      → (level == 3) ≡ false
      → entry % 2 ≡ 1
      → (entry % 4 == 1) ≡ false
      → visit source (at_entry table idx level) below (at_state source mem table level s)
        ≡ some (
          at_entry (get_subtable mem table idx) 0 (level + 1)
              ∷ at_entry table (idx + 1) level
              ∷ below,
          at_state source mem table level s,
        )
  unfolding visit
  visit_table below s l odd e =
      rw (◌>>=◌, valid_bit source entry, odd, descriptor_bit source entry odd, e, l, next) refl

  -- A release that is all that one round does.
  pub one_round :
      (release : Release source) (bound : ℕ)
      → 0 < bound
      → ((below : List EntryInfo) (s : source.State) (o : Option source.State)
          → release s ≡ o
          → visit source (at_entry table idx level) below (at_state source mem table level s)
            ≡ elim o [
              | none ↦ none
              | some s1 ↦
                  some (at_entry table (idx + 1) level ∷ below, at_state source mem table level s1)
            ])
      → Runs source mem table level release bound idx
  one_round release bound pos visits = (
    1,
    pos,
    λ fuel below s.
        ap
          (λ f.
            destroy_loop source f (at_entry table idx level ∷ below)
              (at_state source mem table level s))
          (omega arith)
        ∙ round_leaf source mem table level idx fuel below s release (release s) small refl
            (visits below s (release s) refl),
  )

  same-Runs :
      (release1 release2 : Release source) (bound : ℕ)
      → ((s : source.State) → release1 s ≡ release2 s)
      → Runs source mem table level release1 bound idx
      → Runs source mem table level release2 bound idx
  same-Runs release1 release2 bound same =
      subst (λ (release : Release source). Runs source mem table level release bound idx)
        (λ i s. same s i)

  -- An entry whose release is one round, or that leads on and runs.
  pub entry-Runs :
      (deeper : ℕ → Release source) (bound : ℕ)
      → 0 < bound
      → ((entry % 2 ≡ 1)
          → (entry % 4 == 1) ≡ false
          → Runs source mem table level (deeper idx) bound idx)
      → Runs source mem table level (release_entry source deeper mem table level idx) bound idx
  unfolding release_entry
  entry-Runs deeper bound pos on = elim (Bool-cases (entry % 2 == 0)) [
    | inl even ↦
        same-Runs (λ s. some s) _ bound (λ s. rw even refl)
          (one_round (λ s. some s) bound pos
            λ below s o e. visit_skip below s (ground arith) ∙ rw (sym e) refl)
    | inr odd ↦ elim (Bool-cases (entry % 4 == 1)) [
      | inl block ↦
          same-Runs _ _ bound (λ s. rw (odd, block) refl)
            (one_round _ bound pos λ below s o e. visit_block below s o block e)
      | inr leads ↦
          same-Runs (deeper idx) _ bound (λ s. rw (odd, leads) refl) (on (ground arith) leads)
    ]
  ]
