-- ===== src/Memory/Mapped.antt =====
-- memory.c: a new context and a region of allocated pages in it.
use pi_vos.Prelude.{
  ℕ, suc, ◌+◌, ◌*◌, ◌/◌, ◌%◌, ◌^◌, ◌≤◌, ◌<◌, ◌≡◌, ◌≢◌, refl, arith, ◌∙◌, true, false, some, ap, ap₂,
  sym,
}
use mathlib.Core.Path.{subst}
use pi_vos.Word.{kernel_space_mask}
use pi_vos.Allocator.{Allocator}
use pi_vos.Allocator.Valid.{IsValid, is_claimed}
use pi_vos.Allocator.Search.{claim_pages}
use pi_vos.Allocator.Sequence.{free_count, after, page_at, claims, claims_before}
use pi_vos.Allocator.Sequence.Low.{free_low, free_low-le, page_at-low}
use pi_vos.Allocator.Sequence.Taken.{page_at-distinct, page_at-free}
use pi_vos.Mmu.Tables.{Memory, read_entry, clear_table}
use pi_vos.Mmu.Entries.{to_kernel_space_lem}
use pi_vos.Mmu.Walk.{Machine, M, pure, ◌>>=◌, ◌>>◌, create_table}
use pi_vos.Mmu.Walk.Steps.{table_at, clear_table_apart, clear_table_inside}
use pi_vos.Mmu.Translate.{va_to_pa, idx0, idx3}
use pi_vos.Mmu.Insert.Pages.{Gives}
use pi_vos.Mmu.Insert.Mapped.{Builds, insert-Builds}
use pi_vos.Proc.{Region, map_alloc}
use pi_vos.Memory.{source, get_phys_space, get_phys_space_alloc, create_context, map_region}

-- A new level 0 table, and a region of allocated pages in it.
abbrev pub new_mapped : Region → M source ℕ
new_mapped region = create_context >>= λ table. map_region table region map_alloc >> pure table

gives_page :
    (virt_addr : ℕ) (mem : Memory) (b c : Allocator) (addr : ℕ)
    → claim_pages b 1 1 ≡ some (addr, c)
    → get_phys_space map_alloc
        (record { virt_addr = virt_addr; page_count = 1; align = 1 })
        (record { mem = mem; pages = b })
      ≡ some (addr, record { mem = mem; pages = c })
unfolding get_phys_space get_phys_space_alloc
gives_page virt_addr mem b c addr e = rw (get_phys_space, get_phys_space_alloc, e) refl

after_zero : (a : Allocator) → after a 0 ≡ a
unfolding after
after_zero a = refl

module _ (a : Allocator) (v : IsValid a) (pages : a.page_size ≡ 4096) where
  pub takes :
      (n : ℕ)
      → n < free_count a
      → source.pages_alloc 1 1 (after a n) ≡ some (page_at a n * 4096, after a (suc n))
  unfolding claim_pages
  takes n few =
      (claims a n v few).returns ∙ ap (λ size. some (page_at a n * size, after a (suc n))) pages

  pub page_at-lt : (n : ℕ) → n < free_count a → page_at a n < 2 ^ 32
  page_at-lt n few = omega (arith, (claims a n v few).inside, v.small)

  gives :
      (va count from : ℕ)
      → from + count ≤ free_count a
      → Gives source
          (get_phys_space map_alloc)
          va
          count
          (λ k. page_at a (from + k) * 4096)
          (λ k. after a (from + k))
  gives va count from few = record {
    page = λ k mem h.
        let next : suc (from + k) ≡ from + (k + 1) = omega arith in
        gives_page (va + k * 4096) mem _ _ _ (takes (from + k) (omega arith))
        ∙ ap (λ n. some (page_at a (from + k) * 4096, record { mem = mem; pages = after a n }))
            next;
  }

  create_context-first :
      (mem : Memory)
      → 0 < free_count a
      → create_context (record { mem = mem; pages = a })
        ≡ some (
          table_at (page_at a 0),
          record { mem = clear_table mem (table_at (page_at a 0)); pages = after a 1 },
        )
  unfolding create_context create_table
  create_context-first mem few =
      let first : source.pages_alloc 1 1 a ≡ some (page_at a 0 * 4096, after a 1) =
        ap (λ b. source.pages_alloc 1 1 b) (sym (after_zero a)) ∙ takes 0 few in
      let fits : page_at a 0 * 4096 < 2 ^ 48 = omega (arith, page_at-lt 0 few) in
      rw (create_context, create_table, first, to_kernel_space_lem (page_at a 0 * 4096) fits) refl

  -- The insertion into the new context.
  module _ (mem : Memory) (va count type : ℕ) where
    abbrev page : ℕ → ℕ
    page i = page_at a i

    abbrev pub blank : Machine source
    blank = record { mem = clear_table mem (table_at (page 0)); pages = after a 1 }

    insert_region :
        va % 4096 ≡ 0
        → idx3 va + count ≤ 512
        → va + count * 4096 ≤ 2 ^ 48
        → type < 8
        → 0 < count
        → count < 512
        → 4 + count ≤ free_low a
        → Builds source
            (get_phys_space map_alloc)
            va
            (page 0)
            (page 1)
            (page 2)
            (page 3)
            count
            type
            blank
            (λ k. page (4 + k) * 4096)
            (λ k. after a (4 + k))
    insert_region aligned room small kind some_pages few enough_low =
        let enough : 4 + count ≤ free_count a = (let room = free_low-le a in omega arith) in
        insert-Builds source (get_phys_space map_alloc) va (page 0) (page 1) (page 2) (page 3) count
          type blank (λ k. page (4 + k) * 4096) (λ k. after a (4 + k)) (after a 2) (after a 3)
          aligned room small kind some_pages few
          (low 1 (omega arith), low 2 (omega arith), low 3 (omega arith))
          (
            page_at-distinct v 0 1 (omega arith) (omega arith),
            page_at-distinct v 0 2 (omega arith) (omega arith),
            page_at-distinct v 0 3 (omega arith) (omega arith),
            page_at-distinct v 1 2 (omega arith) (omega arith),
            page_at-distinct v 1 3 (omega arith) (omega arith),
            page_at-distinct v 2 3 (omega arith) (omega arith),
          )
          (clear_table_inside mem (table_at (page 0)) (idx0 va) (omega arith))
          (takes 1 (omega arith)) (takes 2 (omega arith)) (takes 3 (omega arith)) whole
          (gives va count 4 enough)
      where
        low : (n : ℕ) → n < free_low a → page n < 2 ^ 24
        low n h = page_at-low a n v h

        whole :
            (k : ℕ) → k < count → (page (4 + k) * 4096 % 4096 ≡ 0) × (page (4 + k) * 4096 < 2 ^ 36)
        whole k h = (omega arith, omega (arith, page_at-low a (4 + k) v (omega arith)))

-- What `new_mapped_lem` and the destruction of the context ask of a region and of the pages.
pub record Fits (a : Allocator) (va count type : ℕ) : Type 0 where
  pub valid : IsValid a
  pub page_bytes : a.page_size ≡ 4096
  pub aligned : va % 4096 ≡ 0
  pub one_table : idx3 va + count ≤ 512
  pub in_range : va + count * 4096 ≤ 2 ^ 48
  pub known_type : type < 8
  pub some_pages : 0 < count
  pub less_than_block : count < 512
  pub enough_low : 4 + count ≤ free_low a

pub free_enough :
    {a : Allocator} {va count type : ℕ} → Fits a va count type → 4 + count ≤ free_count a
free_enough {a} f = let room = free_low-le a in omega (arith, f.enough_low)

module _ (m : Machine source) (va count type : ℕ) (f : Fits m.pages va count type) where
  abbrev a : Allocator
  a = m.pages

  abbrev pub region : Region
  region = record { memory_type = type; va = va; size = count * 4096 }

  abbrev pub Inserted : Type 0
  Inserted =
      Builds source (get_phys_space map_alloc) va (page_at a 0) (page_at a 1) (page_at a 2)
        (page_at a 3) count type (blank a f.valid f.page_bytes m.mem va count type)
        (λ k. page_at a (4 + k) * 4096) (λ k. after a (4 + k))

  pub new_mapped_builds :
      (b : Inserted) × (new_mapped region m ≡ some (table_at (page_at a 0), b.out))
  unfolding map_region
  new_mapped_builds =
      let b =
        insert_region a f.valid f.page_bytes m.mem va count type f.aligned f.one_table f.in_range
          f.known_type f.some_pages f.less_than_block f.enough_low in
      (
        b,
        rw
            (
              new_mapped,
              ◌>>=◌,
              ◌>>◌,
              create_context-first a f.valid f.page_bytes m.mem (omega (arith, free_enough f)),
              map_region,
              b.returns,
            )
            refl,
      )

  -- Other pages' words are as before.
  pub claimed_kept :
      (b : Inserted) (q i : ℕ)
      → is_claimed a q ≡ true
      → i < 512
      → read_entry b.out.mem (table_at q) i ≡ read_entry m.mem (table_at q) i
  claimed_kept b q i held h =
      let ne : (n : ℕ) → n < 4 → q ≢ page_at a n = λ n less e.
        cc (page_at-free f.valid n (omega (arith, free_enough f)), held, ap (is_claimed a) e) in
      b.outside (table_at q + 8 * i) (omega (arith, ne 1)) (omega (arith, ne 2))
        (omega (arith, ne 3)) (omega (arith, ne 0))
      ∙ clear_table_apart m.mem (table_at (page_at a 0)) (table_at q + 8 * i) (omega (arith, ne 0))

  -- A new context with a region of allocated pages: where the region is of whole pages, at least one
  -- and fewer than 512, of one of the eight memory types, within one level 3 table, and the allocator is valid with pages of 4 KB and
  -- has, below 64 GB, four more free pages than the region has, both calls succeed.
  -- They make exactly that many calls of the allocator, which stays valid, for pages that were free
  -- and differ; the first is the level 0 table, and each address of page `k` of the region is
  -- translated to the same place of the page that call `4 + k` gave, in the kernel's half. No word
  -- of a page that was claimed before is changed.
  pub new_mapped_lem :
      (out : Machine source) × (new_mapped region m ≡ some (table_at (page_at a 0), out))
      × (out.pages ≡ after a (4 + count))
      × IsValid out.pages
      × (free_count out.pages + (4 + count) ≡ free_count a)
      × ((i j : ℕ) → i < j → j < 4 + count → page_at a i ≢ page_at a j)
      × ((i : ℕ) → i < 4 + count → is_claimed a (page_at a i) ≡ false)
      × ((k offset : ℕ)
          → k < count
          → offset < 4096
          → va_to_pa out.mem (table_at (page_at a 0)) (va + k * 4096 + offset)
            ≡ page_at a (4 + k) * 4096 + offset + kernel_space_mask)
      × ((q i : ℕ)
          → is_claimed a q ≡ true
          → i < 512
          → read_entry out.mem (table_at q) i ≡ read_entry m.mem (table_at q) i)
  new_mapped_lem =
      let (b, runs) = new_mapped_builds in
      let last = claims_before a (4 + count) f.valid (free_enough f) in
      (
        b.out,
        runs,
        b.pages,
        subst IsValid (sym b.pages) last.after_valid,
        ap (λ c. free_count c + (4 + count)) b.pages ∙ last.fewer_free,
        λ i j h few. page_at-distinct f.valid i j h (omega (arith, free_enough f)),
        λ i h. page_at-free f.valid i (omega (arith, free_enough f)),
        λ k offset h inside.
            let at : k * 4096 + offset < count * 4096 = omega arith in
            let place : va + k * 4096 + offset ≡ va + (k * 4096 + offset) = omega arith in
            let number : (k * 4096 + offset) / 4096 ≡ k = omega arith in
            let rest : (k * 4096 + offset) % 4096 ≡ offset = omega arith in
            rw place (
              b.translated (k * 4096 + offset) at
              ∙ ap₂ (λ n r. page_at a (4 + n) * 4096 + r + kernel_space_mask) number rest),
        λ q i held h. claimed_kept b q i held h,
      )
