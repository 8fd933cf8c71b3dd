-- ===== src/Memory/Destroyed.antt =====
-- memory.c: the destruction of a context that holds one region of allocated pages.
use pi_vos.Prelude.{
  ℕ, ◌+◌, ◌*◌, ◌%◌, ◌^◌, ◌≤◌, ◌<◌, ◌≡◌, ◌≢◌, refl, arith, ◌∙◌, sym, true, some, ap,
}
use mathlib.Core.Path.{subst}
use pi_vos.Allocator.{Allocator}
use pi_vos.Allocator.Valid.{IsValid, is_claimed}
use pi_vos.Allocator.Sequence.{after, page_at}
use pi_vos.Allocator.Sequence.Taken.{page_at-distinct, page_at-free}
use pi_vos.Allocator.Sequence.Freed.{Holds, Holds-all, Holds-none}
use pi_vos.Mmu.Reg.{empty_entry}
use pi_vos.Mmu.Tables.{Memory, read_entry, write_entry, get_subtable, new_table_entry}
use pi_vos.Mmu.Entries.{type_of_lem}
use pi_vos.Mmu.Fill.{write_entry_apart}
use pi_vos.Mmu.Walk.{Machine, ◌>>=◌}
use pi_vos.Mmu.Walk.Steps.{table_at, clear_table_inside}
use pi_vos.Mmu.Walk.Builds.{first_entry, second_entry, leads_to}
use pi_vos.Mmu.Translate.{idx0, idx1, idx2, idx3}
use pi_vos.Mmu.Destroy.{destroy_entry}
use pi_vos.Mmu.Destroy.Release.{release_table, rounds, EndsWell}
use pi_vos.Mmu.Destroy.Refine.{destroy_entry-release_table}
use pi_vos.Mmu.Destroy.Table.{destroy_table_one, release_one, one-EndsWell}
use pi_vos.Memory.{source, destroy_context}
use pi_vos.Memory.Released.{LeftAt, Below, give_back, low_page, last_table_freed}
use pi_vos.Memory.Mapped.{
  Fits, Inserted, free_enough, new_mapped, region, new_mapped_builds, claimed_kept,
}

-- An entry that leads to table `page`.
leads_three :
    (mem : Memory) (table idx page : ℕ)
    → page < 2 ^ 24
    → read_entry mem table idx ≡ new_table_entry (table_at page)
    → (read_entry mem table idx % 4 ≡ 3) × (get_subtable mem table idx ≡ table_at page)
leads_three mem table idx page small e =
    let l = leads_to mem table idx page small e in
    (omega (arith, type_of_lem (read_entry mem table idx), l.0), l.1)

module _ (m : Machine source) (va count type : ℕ) (f : Fits m.pages va count type)
    (b : Inserted m va count type f) where
  abbrev page : ℕ → ℕ
  page i = page_at m.pages i

  abbrev Keeps : (ℕ → Type 0) → Allocator → Type 0
  Keeps left s = Holds f.valid (4 + count) (free_enough f) left s

  abbrev mem : Memory
  mem = b.out.mem

  first_leads :
      (read_entry mem (table_at (page 1)) (idx1 va) % 4 ≡ 3)
      × (get_subtable mem (table_at (page 1)) (idx1 va) ≡ table_at (page 2))
  first_leads =
      leads_three mem (table_at (page 1)) (idx1 va) (page 2)
        (omega (arith, low_page m va count type f b 2 (omega (arith, f.some_pages))))
        (first_entry mem va (page 0) (page 1) (page 2) (page 3) b.tables)

  second_leads :
      (read_entry mem (table_at (page 2)) (idx2 va) % 4 ≡ 3)
      × (get_subtable mem (table_at (page 2)) (idx2 va) ≡ table_at (page 3))
  second_leads =
      leads_three mem (table_at (page 2)) (idx2 va) (page 3)
        (omega (arith, low_page m va count type f b 3 (omega (arith, f.some_pages))))
        (second_entry mem va (page 0) (page 1) (page 2) (page 3) b.tables)

  root_leads :
      (read_entry mem (table_at (page 0)) (idx0 va) % 4 ≡ 3)
      × (get_subtable mem (table_at (page 0)) (idx0 va) ≡ table_at (page 1))
  root_leads =
      leads_three mem (table_at (page 0)) (idx0 va) (page 1)
        (omega (arith, low_page m va count type f b 1 (omega (arith, f.some_pages)))) b.tables.root

  first_blank : (i : ℕ) → i < 512 → i ≢ idx1 va → read_entry mem (table_at (page 1)) i ≡ 0
  first_blank i h ne = ground (arith, b.tables.first i h)

  second_blank : (i : ℕ) → i < 512 → i ≢ idx2 va → read_entry mem (table_at (page 2)) i ≡ 0
  second_blank i h ne = ground (arith, b.tables.second i h)

  -- All that the level 0 entry leads to is released.
  entry_freed :
      (s : Allocator)
      → Keeps (LeftAt (idx3 va) 0) s
      → (c : Allocator) × (release_table source 2 mem (table_at (page 1)) s ≡ some c)
        × Keeps (Below 1) c
  entry_freed s held =
      let (c, third, held3) = last_table_freed m va count type f b s held in
      let (d, t2, held2) =
        give_back m va count type f b (Below 3) (Below 2) c 2 0xFFFF (omega arith)
          (λ j less ne l. omega arith) held3 in
      let (e, t1, held1) =
        give_back m va count type f b (Below 2) (Below 1) d 1 0xFFFF (omega arith)
          (λ j less ne l. omega arith) held2 in
      (
        e,
        release_one source mem (table_at (page 1)) (idx1 va) (table_at (page 2)) 1 (omega arith)
            first_leads.0 first_leads.1 first_blank s d e
            (release_one source mem (table_at (page 2)) (idx2 va) (table_at (page 3)) 0
              (omega arith) second_leads.0 second_leads.1 second_blank s c d third t2)
            t1,
        held1,
      )

  tables-EndsWell : idx1 va ≢ 511 → idx2 va ≢ 511 → EndsWell source 2 mem (table_at (page 1))
  unfolding EndsWell
  tables-EndsWell ne1 ne2 =
      one-EndsWell source mem (table_at (page 1)) (idx1 va) (table_at (page 2)) 1 (omega arith)
        first_leads.0 first_leads.1 first_blank ne1
        (one-EndsWell source mem (table_at (page 2)) (idx2 va) (table_at (page 3)) 0 (omega arith)
          second_leads.0 second_leads.1 second_blank ne2 tt)

  root_blank : (i : ℕ) → i < 512 → i ≢ idx0 va → read_entry mem (table_at (page 0)) i ≡ 0
  root_blank i h ne =
      let apart : (n : ℕ) → 0 < n → n < 4 → page 0 ≢ page n =
        λ n low high. page_at-distinct f.valid 0 n low (omega (arith, free_enough f)) in
      b.outside (table_at (page 0) + 8 * i) (omega (arith, apart 1)) (omega (arith, apart 2))
        (omega (arith, apart 3)) (omega arith)
      ∙ clear_table_inside m.mem (table_at (page 0)) i h

  -- The entry of the level 0 table, then the table itself.
  destroy_context_runs :
      (fuel : ℕ)
      → idx1 va ≢ 511
      → idx2 va ≢ 511
      → rounds source 2 ≤ fuel
      → (c : Allocator) × (destroy_context fuel (table_at (page 0)) b.out
          ≡ some (
            tt,
            record { mem = write_entry mem (table_at (page 0)) (idx0 va) empty_entry; pages = c },
          ))
        × Keeps (Below 0) c
  unfolding destroy_context
  destroy_context_runs fuel ne1 ne2 enough =
      let start =
        Holds-all f.valid (4 + count) (free_enough f) (LeftAt (idx3 va) 0) (λ i h. omega arith) in
      let (c, release, held1) = entry_freed (after m.pages (4 + count)) start in
      let (d, table, held0) =
        give_back m va count type f b (Below 1) (Below 0) c 0 0xFFFF (omega arith)
          (λ j less ne l. omega arith) held1 in
      let written : Memory = write_entry mem (table_at (page 0)) (idx0 va) empty_entry in
      let ends = subst (EndsWell source 2 mem) (sym root_leads.1) (tables-EndsWell ne1 ne2) in
      let run : destroy_entry source fuel (table_at (page 0)) (idx0 va) 0 b.out
          ≡ some (tt, record { mem = written; pages = c }) =
        ap
          (λ s.
            destroy_entry source fuel (table_at (page 0)) (idx0 va) 0
              (record { mem = mem; pages = s }))
          b.pages
        ∙ destroy_entry-release_table source mem fuel 2 (table_at (page 0)) (idx0 va) 0
            (after m.pages (4 + count)) (omega arith) root_leads.0 ends enough
        ∙ rw (root_leads.1, release) refl in
      (
        d,
        destroy_table_one source fuel (table_at (page 0)) (idx0 va) b.out
            (record { mem = written; pages = c }) d (omega arith)
            (λ e. absurd (omega (arith, root_leads.0, e))) root_blank
            (λ i low h.
              write_entry_apart mem (table_at (page 0)) (idx0 va) empty_entry
                (table_at (page 0) + 8 * i) (omega arith)
              ∙ root_blank i h (omega arith))
            run table,
        held0,
      )

-- A new context, a region of allocated pages in it, and the destruction of the context: where the
-- region is of whole pages, at least one and fewer than 512, of one of the eight memory types, within one level 3 table, the allocator
-- is valid with pages of 4 KB and has, below 64 GB, four more free pages than the region has, the last entries of the level 1 and level 2 tables are not used, and the loop has
-- fuel for the rounds of a level 1 table, all succeeds. The allocator is valid again, and each page
-- is claimed exactly if it was claimed before; no word of a page that was claimed is changed.
pub destroy_context-new_mapped :
    (m : Machine source) (va count type fuel : ℕ) (f : Fits m.pages va count type)
    → idx1 va ≢ 511
    → idx2 va ≢ 511
    → rounds source 2 ≤ fuel
    → (out : Machine source) × ((new_mapped (region m va count type f) >>= destroy_context fuel) m
        ≡ some (tt, out))
      × IsValid out.pages
      × ((q : ℕ) → is_claimed out.pages q ≡ is_claimed m.pages q)
      × ((q i : ℕ)
          → is_claimed m.pages q ≡ true
          → i < 512
          → read_entry out.mem (table_at q) i ≡ read_entry m.mem (table_at q) i)
destroy_context-new_mapped m va count type fuel f ne1 ne2 enough =
    let (b, maps) = new_mapped_builds m va count type f in
    let (c, destroys, left) = destroy_context_runs m va count type f b fuel ne1 ne2 enough in
    let t0 : ℕ = page_at m.pages 0 in
    (
      record { mem = write_entry b.out.mem (table_at t0) (idx0 va) empty_entry; pages = c },
      rw (◌>>=◌, maps, destroys) refl,
      left.held_valid,
      Holds-none f.valid (4 + count) (free_enough f) (Below 0) c (λ i less none_left. omega arith)
          left,
      λ q i held h.
          let ne : q ≢ t0 = λ e. cc (
            page_at-free f.valid 0 (omega (arith, free_enough f)),
            held,
            ap (is_claimed m.pages) e,
          ) in
          write_entry_apart b.out.mem (table_at t0) (idx0 va) empty_entry (table_at q + 8 * i)
            (omega arith)
          ∙ claimed_kept m va count type f b q i held h,
    )
