-- ===== src/Memory/Released.antt =====
-- memory.c: the release of a level 3 table of allocated pages.
use pi_vos.Prelude.{
  ℕ, zero, suc, ◌+◌, ◌-◌, ◌*◌, ◌%◌, ◌^◌, ◌≤◌, ◌<◌, ◌≡◌, ◌≢◌, refl, arith, ◌∙◌, some, ap, ◌⊎◌, inl,
  inr,
}
use mathlib.Core.Path.{subst}
use pi_vos.Allocator.{Allocator}
use pi_vos.Allocator.Sequence.{page_at}
use pi_vos.Allocator.Sequence.Low.{page_at-low}
use pi_vos.Allocator.Sequence.Freed.{Holds, Holds-weaken, frees}
use pi_vos.Mmu.Tables.{read_entry, get_address_from_page_entry, new_page_entry}
use pi_vos.Mmu.Entries.{new_page_entry_lem, type_of_lem}
use pi_vos.Mmu.Walk.{Machine}
use pi_vos.Mmu.Walk.Steps.{table_at}
use pi_vos.Mmu.Translate.{idx3}
use pi_vos.Mmu.Destroy.Release.{Release, then_release, each, release_entry, release_table}
use pi_vos.Mmu.Destroy.Table.{release_empty, release_deeper}
use pi_vos.Memory.{source}
use pi_vos.Memory.Mapped.{Fits, Inserted, free_enough}

-- What is left of the pages once the first `idx` entries of the last table, which has the pages of
-- the region from entry `start` on, are released.
abbrev pub LeftAt : ℕ → ℕ → ℕ → Type 0
LeftAt start idx i = (i < 4) ⊎ (idx + 4 ≤ start + i)

-- What is left of the pages when the tables follow, from the last one up.
abbrev pub Below : ℕ → ℕ → Type 0
Below n i = i < n

module _ (m : Machine source) (va count type : ℕ) (f : Fits m.pages va count type)
    (b : Inserted m va count type f) where
  abbrev pub a : Allocator
  a = m.pages

  abbrev pub page : ℕ → ℕ
  page i = page_at a i

  abbrev pub Held : (ℕ → Type 0) → Allocator → Type 0
  Held left s = Holds f.valid (4 + count) (free_enough f) left s

  -- Page `i` of those that were taken, given by its address in the kernel's half or not, is freed.
  pub give_back :
      (left rest : ℕ → Type 0) (s : Allocator) (i tag : ℕ)
      → i < 4 + count
      → ((j : ℕ) → j < 4 + count → j ≢ i → left j → rest j)
      → Held left s
      → (c : Allocator) × (source.pages_dealloc (page i * 4096 + tag * 2 ^ 48) 1 s ≡ some c)
        × Held rest c
  give_back left rest s i tag h on held =
      frees f.valid (4 + count) (free_enough f) left rest s i tag h f.page_bytes on held

  abbrev leaf : ℕ → Release source
  leaf idx =
      source.pages_dealloc
        (get_address_from_page_entry (read_entry b.out.mem (table_at (page 3)) idx)) 1

  abbrev release_leaf : ℕ → Release source
  release_leaf = release_entry source leaf b.out.mem (table_at (page 3)) 3

  pub low_page : (i : ℕ) → i < 4 + count → page i < 2 ^ 24
  low_page i h = page_at-low m.pages i f.valid (omega (arith, f.enough_low))

  -- The page of an entry of the region.
  leaf_page :
      (idx : ℕ) (s c : Allocator)
      → idx3 va ≤ idx
      → idx < idx3 va + count
      → source.pages_dealloc (page (4 + (idx - idx3 va)) * 4096 + 0 * 2 ^ 48) 1 s ≡ some c
      → release_leaf idx s ≡ some c
  leaf_page idx s c low high e =
      let p : ℕ = page (4 + (idx - idx3 va)) in
      let small : p < 2 ^ 24 = low_page (4 + (idx - idx3 va)) (omega arith) in
      let entry = b.leaves idx low high in
      let new = new_page_entry_lem (p * 4096) type (omega (arith, small)) f.known_type in
      let odd : read_entry b.out.mem (table_at (page 3)) idx % 4 ≡ 3 =
        omega (arith, type_of_lem (new_page_entry (p * 4096) type), new.0, entry) in
      let address : get_address_from_page_entry (read_entry b.out.mem (table_at (page 3)) idx)
          ≡ p * 4096 + 0 * 2 ^ 48 =
        ap get_address_from_page_entry entry ∙ new.1 ∙ omega arith in
      release_deeper source leaf b.out.mem (table_at (page 3)) 3 idx s odd
      ∙ ap (λ addr. source.pages_dealloc addr 1 s) address
      ∙ e

  one_leaf :
      (idx : ℕ) (s : Allocator)
      → idx < 512
      → Held (LeftAt (idx3 va) idx) s
      → (c : Allocator) × (release_leaf idx s ≡ some c) × Held (LeftAt (idx3 va) (idx + 1)) c
  one_leaf idx s h held = elim (in_region idx) [
    | inl (low, high) ↦
        let (c, e, rest) =
          give_back (LeftAt (idx3 va) idx) (LeftAt (idx3 va) (idx + 1)) s (4 + (idx - idx3 va)) 0
            (omega arith) (λ j less ne l. omega arith) held in
        (c, leaf_page idx s c low high e, rest)
    | inr out ↦ (
      s,
      release_empty source leaf b.out.mem (table_at (page 3)) 3 idx s (b.others idx h out),
      Holds-weaken f.valid (4 + count) (free_enough f) (LeftAt (idx3 va) idx)
          (LeftAt (idx3 va) (idx + 1)) s (λ j less l. omega (arith, out)) held,
    )
  ]
    where
      in_region :
          (i : ℕ)
          → ((idx3 va ≤ i) × (i < idx3 va + count)) ⊎ ((i < idx3 va) ⊎ (idx3 va + count ≤ i))
      in_region i = omega arith

  leaves_freed :
      (left idx : ℕ) (s : Allocator)
      → idx + left ≡ 512
      → Held (LeftAt (idx3 va) idx) s
      → (c : Allocator) × (each source release_leaf left idx s ≡ some c)
        × Held (LeftAt (idx3 va) 512) c
  unfolding each
  leaves_freed zero idx s h held =
      let e : idx ≡ 512 = omega arith in (s, refl, subst (λ i. Held (LeftAt (idx3 va) i) s) e held)
  leaves_freed (suc left) idx s h held =
      let (c, first, held1) = one_leaf idx s (omega arith) held in
      let (d, others, held2) = leaves_freed left (idx + 1) c (omega arith) held1 in
      (d, rw (each, then_release, first) others, held2)

  pub last_table_freed :
      (s : Allocator)
      → Held (LeftAt (idx3 va) 0) s
      → (c : Allocator) × (release_table source 0 b.out.mem (table_at (page 3)) s ≡ some c)
        × Held (Below 3) c
  unfolding release_table
  last_table_freed s held =
      let (c, entries, held1) = leaves_freed 512 0 s refl held in
      let (d, table, held2) =
        give_back (LeftAt (idx3 va) 512) (Below 3) c 3 0xFFFF (omega arith)
          (λ j less ne l. omega (arith, f.one_table)) held1 in
      (d, rw (release_table, then_release, entries, table) refl, held2)
