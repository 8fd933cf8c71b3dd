-- ===== src/Mmu/Destroy/Loop.antt =====
-- mmu.c: the loop of `mmu_destroy_entry` releases a table as the recursive description does.
use pi_vos.Prelude.{
  ℕ, zero, suc, ◌+◌, ◌*◌, ◌≤◌, ◌<◌, ◌≡◌, refl, arith, true, false, ◌∙◌, ap, Option, none, some,
  List, ◌∷◌, ◌==◌, if◌then◌else◌, inl, inr, Bool-cases,
}
use pi_vos.Mmu.Reg.{entries_per_table}
use pi_vos.Mmu.Tables.{Memory}
use pi_vos.Mmu.Walk.{PageSource, Machine, EntryInfo, pure, ◌>>=◌, ◌>>◌}
use pi_vos.Mmu.Destroy.{destroy_loop, visit, leave, dealloc_table, pages_dealloc}
use pi_vos.Mmu.Destroy.Release.{Release, then_release, each, go_on}

abbrev pub at_entry : ℕ → ℕ → ℕ → EntryInfo
at_entry table idx level = record { table = table; idx = idx; level = level }

module _ (source : PageSource) (mem : Memory) (table level : ℕ) where
  abbrev pub at_state : source.State → Machine source
  at_state s = record { mem = mem; pages = s }

  abbrev dealloc : Release source
  dealloc = source.pages_dealloc table 1

  -- What the loop does from entry `idx` on once that is released.
  abbrev pub moves_on :
      Release source → ℕ → ℕ → List EntryInfo → source.State → Option (Unit {0} × Machine source)
  moves_on release idx fuel below s =
      if idx == 511
      then go_on source (then_release source release dealloc) fuel below mem s
      else go_on source release fuel (at_entry table (idx + 1) level ∷ below) mem s

  released :
      (fuel : ℕ) (below : List EntryInfo) (s : source.State) (o : Option source.State)
      → dealloc s ≡ o
      → elim ((dealloc_table source table >> pure below) (at_state s)) [
        | none ↦ none
        | some out ↦ destroy_loop source fuel out.0 out.1
      ]
        ≡ go_on source dealloc fuel below mem s
  unfolding dealloc_table pages_dealloc
  released fuel below s none e = rw (◌>>◌, ◌>>=◌, go_on, e) refl
  released fuel below s (some s1) e = rw (◌>>◌, ◌>>=◌, go_on, e) refl

  -- A round whose release is all that `visit` does.
  pub round_leaf :
      (idx fuel : ℕ) (below : List EntryInfo) (s : source.State) (release : Release source)
      (o : Option source.State)
      → idx < 512
      → release s ≡ o
      → visit source (at_entry table idx level) below (at_state s) ≡ elim o [
        | none ↦ none
        | some s1 ↦ some (at_entry table (idx + 1) level ∷ below, at_state s1)
      ]
      → destroy_loop source (suc fuel) (at_entry table idx level ∷ below) (at_state s)
        ≡ moves_on release idx fuel below s
  unfolding destroy_loop leave
  round_leaf idx fuel below s release none h r v = elim (Bool-cases (idx == 511)) [
    | inl last ↦ rw (◌>>=◌, last, if◌then◌else◌, go_on, then_release, v, r) refl
    | inr more ↦ rw (◌>>=◌, more, if◌then◌else◌, go_on, v, r) refl
  ]
  round_leaf idx fuel below s release (some s1) h r v = elim (Bool-cases (idx == 511)) [
    | inl last ↦
        let e : (idx + 1 == entries_per_table) ≡ true = ground arith in
        rw (◌>>=◌, last, if◌then◌else◌, go_on, then_release, v, e, r)
          (released fuel below s1 (dealloc s1) refl)
    | inr more ↦
        let e : (idx + 1 == entries_per_table) ≡ false = ground arith in
        rw (◌>>=◌, more, if◌then◌else◌, go_on, then_release, v, e, r) refl
  ]

  -- Rounds that release entry `idx` and move on.
  abbrev pub Runs : Release source → ℕ → ℕ → Type 0
  Runs release bound idx =
      (cost : ℕ) × (cost ≤ bound)
      × ((fuel : ℕ) (below : List EntryInfo) (s : source.State)
          → destroy_loop source (cost + fuel) (at_entry table idx level ∷ below) (at_state s)
            ≡ moves_on release idx fuel below s)

  then_release-some :
      (first : Release source) (fuel : ℕ) (below : List EntryInfo) (s : source.State)
      (o : Option source.State)
      → first s ≡ o
      → go_on source (then_release source first dealloc) fuel below mem s
        ≡ go_on source
            (then_release source (then_release source first some) dealloc)
            fuel
            below
            mem
            s
  then_release-some first fuel below s none e = rw (go_on, then_release, e) refl
  then_release-some first fuel below s (some s1) e = rw (go_on, then_release, e) refl

  joined :
      (first rest : Release source) (fuel : ℕ) (below : List EntryInfo) (idx cost : ℕ)
      (s : source.State)
      → ((s1 : source.State)
          → destroy_loop source (cost + fuel) (at_entry table (idx + 1) level ∷ below) (at_state s1)
            ≡ go_on source (then_release source rest dealloc) fuel below mem s1)
      → (o : Option source.State) → first s ≡ o
      → go_on source first (cost + fuel) (at_entry table (idx + 1) level ∷ below) mem s
        ≡ go_on source
            (then_release source (then_release source first rest) dealloc)
            fuel
            below
            mem
            s
  joined first rest fuel below idx cost s next none e = rw (go_on, then_release, e) refl
  joined first rest fuel below idx cost s next (some s1) e = rw (go_on, then_release, e) (next s1)

  -- Where each entry is released in a bounded number of rounds, so are all of them and the table.
  module _ (release : ℕ → Release source) (bound : ℕ)
      (runs : (idx : ℕ) → idx < 512 → Runs (release idx) bound idx) where
    pub entries_run :
        (left idx : ℕ)
        → idx + suc left ≡ 512
        → (cost : ℕ) × (cost ≤ suc left * bound)
          × ((fuel : ℕ) (below : List EntryInfo) (s : source.State)
              → destroy_loop source (cost + fuel) (at_entry table idx level ∷ below) (at_state s)
                ≡ go_on source
                    (then_release source (each source release (suc left) idx) dealloc)
                    fuel
                    below
                    mem
                    s)
    unfolding each
    entries_run zero idx h =
        let (cost, le, run) = runs idx (omega arith) in
        let last : (idx == 511) ≡ true = ground arith in
        (
          cost,
          omega arith,
          λ fuel below s.
              run fuel below s
              ∙ rw (if◌then◌else◌, last)
                  (then_release-some (release idx) fuel below s (release idx s) refl),
        )
    entries_run (suc left) idx h =
        let (cost, le, run) = runs idx (omega arith) in
        let (cost1, le1, run1) = entries_run left (idx + 1) (omega arith) in
        let more : (idx == 511) ≡ false = ground arith in
        (
          cost + cost1,
          omega arith,
          λ fuel below s.
              ap (λ f. destroy_loop source f (at_entry table idx level ∷ below) (at_state s))
                (omega arith)
              ∙ run (cost1 + fuel) below s
              ∙ rw (if◌then◌else◌, more)
                  (joined (release idx) (each source release (suc left) (idx + 1)) fuel below idx
                    cost1 s (run1 fuel below) (release idx s) refl),
        )
