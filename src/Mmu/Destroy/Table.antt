-- ===== src/Mmu/Destroy/Table.antt =====
-- mmu.c: `memory_mmu_destroy_table` of a level 0 table with one entry.
use pi_vos.Prelude.{
  ℕ, zero, suc, ◌+◌, ◌-◌, ◌%◌, ap, sym, ◌≤◌, ◌<◌, ◌≡◌, ◌≢◌, refl, arith, ◌∙◌, some, ◌==◌, inl, inr,
  Bool-cases, false,
}
use mathlib.Core.Path.{subst}
use pi_vos.Mmu.Reg.{empty_entry}
use pi_vos.Mmu.Tables.{Memory, read_entry, get_subtable}
use pi_vos.Mmu.Walk.{PageSource, Machine, ◌>>=◌, ◌>>◌}
use pi_vos.Mmu.Destroy.{destroy_entries, destroy_entry, destroy_table, pages_dealloc}
use pi_vos.Mmu.Destroy.Release.{Release, then_release, each, release_entry, release_table, EndsWell}

module _ (source : PageSource) (fuel table : ℕ) where
  -- Empty entries are passed over.
  skip_empty :
      (left idx : ℕ) (m : Machine source)
      → ((i : ℕ) → idx ≤ i → i < idx + left → read_entry m.mem table i ≡ 0)
      → destroy_entries source fuel left table idx m ≡ some (tt, m)
  unfolding destroy_entries
  skip_empty zero idx m empty = refl
  skip_empty (suc left) idx m empty =
      rw (◌>>=◌, ◌>>◌, empty idx (omega arith) (omega arith))
        (skip_empty left (idx + 1) m (λ i low high. empty i (omega arith) (omega arith)))

  -- The one entry is destroyed.
  destroy_one :
      (left idx at : ℕ) (m m' : Machine source)
      → idx ≤ at
      → at < idx + left
      → read_entry m.mem table at ≢ 0
      → ((i : ℕ) → idx ≤ i → i < idx + left → i ≢ at → read_entry m.mem table i ≡ 0)
      → ((i : ℕ) → at < i → i < idx + left → read_entry m'.mem table i ≡ 0)
      → destroy_entry source fuel table at 0 m ≡ some (tt, m')
      → destroy_entries source fuel left table idx m ≡ some (tt, m')
  unfolding destroy_entries
  destroy_one zero idx at m m' low high full empty then_empty run = absurd (omega arith)
  destroy_one (suc left) idx at m m' low high full empty then_empty run =
      elim (Bool-cases (idx == at)) [
        | inl here ↦
            let e : idx ≡ at = ground arith in
            let test : (read_entry m.mem table at == empty_entry) ≡ false = ground arith in
            rw (◌>>=◌, ◌>>◌, e, test, run)
              (skip_empty left (idx + 1) m' (λ i l h. then_empty i (omega arith) (omega arith)))
        | inr later ↦
            let ne : idx ≢ at = ground arith in
            rw (◌>>=◌, ◌>>◌, empty idx (omega arith) (omega arith) ne)
              (destroy_one left (idx + 1) at m m' (omega arith) (omega arith) full
                (λ i l h. empty i (omega arith) (omega arith))
                (λ i l h. then_empty i l (omega arith)) run)
      ]

  -- Then the table is released.
  pub destroy_table_one :
      (at : ℕ) (m m' : Machine source) (s : source.State)
      → at < 512
      → read_entry m.mem table at ≢ 0
      → ((i : ℕ) → i < 512 → i ≢ at → read_entry m.mem table i ≡ 0)
      → ((i : ℕ) → at < i → i < 512 → read_entry m'.mem table i ≡ 0)
      → destroy_entry source fuel table at 0 m ≡ some (tt, m')
      → source.pages_dealloc table 1 m'.pages ≡ some s
      → destroy_table source fuel table m ≡ some (tt, record m' { pages = s })
  unfolding destroy_table pages_dealloc
  destroy_table_one at m m' s h full empty then_empty run last =
      rw
        (
          ◌>>=◌,
          ◌>>◌,
          destroy_one 512 0 at m m' (omega arith) (omega arith) full
              (λ i l less. empty i (omega arith)) (λ i l less. then_empty i l (omega arith)) run,
          pages_dealloc,
          last,
        )
        refl

module _ (source : PageSource) where
  -- Releases that change nothing are passed over.
  each_same :
      (release : ℕ → Release source) (left idx : ℕ) (s : source.State)
      → ((i : ℕ) → idx ≤ i → i < idx + left → release i s ≡ some s)
      → each source release left idx s ≡ some s
  unfolding each
  each_same release zero idx s same = refl
  each_same release (suc left) idx s same =
      rw (each, then_release, same idx (omega arith) (omega arith))
        (each_same release left (idx + 1) s (λ i l h. same i (omega arith) (omega arith)))

  pub each_one :
      (release : ℕ → Release source) (left idx at : ℕ) (s s' : source.State)
      → idx ≤ at
      → at < idx + left
      → ((i : ℕ) (t : source.State) → idx ≤ i → i < idx + left → i ≢ at → release i t ≡ some t)
      → release at s ≡ some s'
      → each source release left idx s ≡ some s'
  unfolding each
  each_one release zero idx at s s' low high same run = absurd (omega arith)
  each_one release (suc left) idx at s s' low high same run = elim (Bool-cases (idx == at)) [
    | inl here ↦
        let e : idx ≡ at = ground arith in
        rw (e, then_release, run)
          (each_same release left (idx + 1) s'
            (λ i l h. same i s' (omega arith) (omega arith) (omega arith)))
    | inr later ↦
        let ne : idx ≢ at = ground arith in
        rw (then_release, same idx s (omega arith) (omega arith) ne)
          (each_one release left (idx + 1) at s s' (omega arith) (omega arith)
            (λ i t l h d. same i t (omega arith) (omega arith) d) run)
  ]

  module _ (deeper : ℕ → Release source) (mem : Memory) (table level idx : ℕ)
      (s : source.State) where
    pub release_empty :
        read_entry mem table idx ≡ 0 → release_entry source deeper mem table level idx s ≡ some s
    unfolding release_entry
    release_empty e = rw e refl

    pub release_deeper :
        read_entry mem table idx % 4 ≡ 3
        → release_entry source deeper mem table level idx s ≡ deeper idx s
    unfolding release_entry
    release_deeper e = ground arith

  -- A table whose one entry leads to another.
  module _ (mem : Memory) (table at sub depth : ℕ) (inside : at < 512)
      (leads : read_entry mem table at % 4 ≡ 3) (down : get_subtable mem table at ≡ sub)
      (blank : (i : ℕ) → i < 512 → i ≢ at → read_entry mem table i ≡ 0) where
    pub release_one :
        (s s' s'' : source.State)
        → release_table source depth mem sub s ≡ some s'
        → source.pages_dealloc table 1 s' ≡ some s''
        → release_table source (suc depth) mem table s ≡ some s''
    unfolding release_table
    release_one s s' s'' first last =
        let deeper : ℕ → Release source =
          λ idx. release_table source depth mem (get_subtable mem table idx) in
        let entries : each source (release_entry source deeper mem table (2 - depth)) 512 0 s
            ≡ some s' =
          each_one (release_entry source deeper mem table (2 - depth)) 512 0 at s s' (omega arith)
            (omega arith)
            (λ i t low high ne.
              release_empty deeper mem table (2 - depth) i t (blank i (omega arith) ne))
            (release_deeper deeper mem table (2 - depth) at s leads
              ∙ ap (λ t. release_table source depth mem t s) down
              ∙ first) in
        rw (release_table, then_release, entries, last) refl

    pub one-EndsWell :
        at ≢ 511 → EndsWell source depth mem sub → EndsWell source (suc depth) mem table
    unfolding EndsWell
    one-EndsWell ne ends = (
      λ e. absurd (omega (arith, blank 511 (omega arith) (λ q. ne (sym q)))),
      λ i h e. elim (Bool-cases (i == at)) [
        | inl here ↦
            let same : i ≡ at = ground arith in
            subst (EndsWell source depth mem) (sym (ap (get_subtable mem table) same ∙ down)) ends
        | inr other ↦ absurd (omega (arith, blank i h (ground arith)))
      ],
    )
