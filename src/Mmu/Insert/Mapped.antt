-- ===== src/Mmu/Insert/Mapped.antt =====
-- mmu.c: `memory_mmu_insert` of a region within one level 3 table, for a callback that gives the
-- pages one by one.
use pi_vos.Prelude.{
  ℕ, ap, ◌⊎◌, ◌+◌, ◌-◌, ◌*◌, ◌/◌, ◌%◌, ◌^◌, ◌≤◌, ◌<◌, ◌≡◌, ◌≢◌, refl, arith, false, leb, some, ◌∙◌,
}
use pi_vos.Word.{u32, u64, sub64, align_up64, kernel_space_mask}
use pi_vos.Word.Align.{align_up64_lem}
use pi_vos.Mmu.Reg.{page_size, size_of_level_region}
use pi_vos.Mmu.Tables.{Memory, read_entry, create_page_entry, new_page_entry}
use pi_vos.Mmu.Entries.{new_page_entry_lem}
use pi_vos.Mmu.Fill.{IsApart, fill, fill_inside, fill_outside}
use pi_vos.Mmu.Walk.{PageSource, Machine, M}
use pi_vos.Mmu.Walk.Steps.{table_at}
use pi_vos.Mmu.Walk.Builds.{Tables, Tables-kept, Tables-WalksTo3, traverse-Tables}
use pi_vos.Mmu.Translate.{va_to_pa, va_to_pa-page, WalksTo3, idx0, idx3}
use pi_vos.Mmu.Insert.{PhysSpaceRequest, map_units, insert}
use pi_vos.Mmu.Insert.Pages.{Gives, page_value, map_units-fill}

-- A region of less than 2 MB has no room for a block and the distance to it.
pub insert_small :
    (source : PageSource) (get_phys_space : PhysSpaceRequest → M source ℕ) (t0 va count type : ℕ)
    (m : Machine source)
    → va < 2 ^ 48
    → count < 512
    → insert source get_phys_space t0 0 va (count * 4096) type m
      ≡ map_units source get_phys_space create_page_entry 3 type t0 0 va count m
unfolding insert
insert_small source get_phys_space t0 va count type m small h = rw (up, no, all) refl
  where
    up : align_up64 va (size_of_level_region 2) ≡ (va + 2 ^ 21 - 1) / 2 ^ 21 * 2 ^ 21
    up = align_up64_lem va 21 (omega arith) (omega arith)

    no :
        leb
          (u64 (sub64 ((va + 2 ^ 21 - 1) / 2 ^ 21 * 2 ^ 21) va + size_of_level_region 2))
          (count * 4096)
        ≡ false
    no = ground arith

    all : u32 (count * 4096 / page_size) ≡ count
    all = omega arith

module _ (source : PageSource) (t3 va count type : ℕ) (page_of : ℕ → ℕ) where
  abbrev pub mapped : Memory → Memory
  mapped mem = fill (page_value source t3 (idx3 va) type page_of) t3 count (idx3 va) mem

  pub mapped_outside :
      (mem : Memory) (addr : ℕ)
      → idx3 va + count ≤ 512
      → IsApart t3 addr
      → mapped mem addr ≡ mem addr
  mapped_outside mem addr room out =
      fill_outside (page_value source t3 (idx3 va) type page_of) t3 count (idx3 va) mem addr
        (omega arith)

  -- The filled entries are the pages of the region.
  pub mapped_translates :
      (t0 offset : ℕ) (mem : Memory)
      → va % 4096 ≡ 0
      → idx3 va + count ≤ 512
      → va + count * 4096 ≤ 2 ^ 48
      → type < 8
      → ((k : ℕ) → k < count → (page_of k % 4096 ≡ 0) × (page_of k < 2 ^ 36))
      → offset < count * 4096
      → WalksTo3 (mapped mem) t0 (va + offset) t3
      → va_to_pa (mapped mem) t0 (va + offset)
        ≡ page_of (offset / 4096) + offset % 4096 + kernel_space_mask
  mapped_translates t0 offset mem page room small kind are_pages h w =
      let at : idx3 (va + offset) - idx3 va ≡ offset / 4096 = omega arith in
      let entry : read_entry (mapped mem) t3 (idx3 (va + offset))
          ≡ new_page_entry (page_of (offset / 4096)) type =
        fill_inside (page_value source t3 (idx3 va) type page_of) t3 count (idx3 va) mem
          (idx3 (va + offset)) (omega arith) (omega arith)
        ∙ ap (λ k. new_page_entry (page_of k) type) at in
      let this = are_pages (offset / 4096) (omega arith) in
      let p = new_page_entry_lem (page_of (offset / 4096)) type this.1 kind in
      va_to_pa-page (omega arith) w (rw entry p.0) ∙ rw (entry, p.1) (omega (arith, this.0))

-- The addresses are of whole pages of 48 bits.
abbrev pub ArePages : ℕ → (ℕ → ℕ) → Type 0
ArePages count page_of = (k : ℕ) → k < count → (page_of k % 4096 ≡ 0) × (page_of k < 2 ^ 36)

module _ (source : PageSource) (get_phys_space : PhysSpaceRequest → M source ℕ)
    (va p0 p1 p2 p3 count type : ℕ) (m : Machine source) (page_of : ℕ → ℕ)
    (states : ℕ → source.State) where
  -- What the insertion of the region does where it builds its three tables.
  pub record Builds : Type 0 where
    pub out : Machine source
    pub returns :
        insert source get_phys_space (table_at p0) 0 va (count * 4096) type m ≡ some (tt, out)
    pub pages : out.pages ≡ states count
    pub translated :
        (offset : ℕ)
        → offset < count * 4096
        → va_to_pa out.mem (table_at p0) (va + offset)
          ≡ page_of (offset / 4096) + offset % 4096 + kernel_space_mask
    pub tables : Tables out.mem va p0 p1 p2 p3
    pub leaves :
        (i : ℕ)
        → idx3 va ≤ i
        → i < idx3 va + count
        → read_entry out.mem (table_at p3) i ≡ new_page_entry (page_of (i - idx3 va)) type
    pub others :
        (i : ℕ)
        → i < 512
        → (i < idx3 va) ⊎ (idx3 va + count ≤ i)
        → read_entry out.mem (table_at p3) i ≡ 0
    pub outside :
        (addr : ℕ)
        → IsApart (table_at p1) addr
        → IsApart (table_at p2) addr
        → IsApart (table_at p3) addr
        → addr ≢ table_at p0 + 8 * idx0 va
        → out.mem addr ≡ m.mem addr

  -- The level 0 entry is empty, the source gives three pages, apart from each other and from the
  -- level 0 table, and then the callback gives the pages of the region.
  pub insert-Builds :
      (s1 s2 : source.State)
      → va % 4096 ≡ 0
      → idx3 va + count ≤ 512
      → va + count * 4096 ≤ 2 ^ 48
      → type < 8
      → 0 < count
      → count < 512
      → (p1 < 2 ^ 24) × (p2 < 2 ^ 24) × (p3 < 2 ^ 24)
      → (p0 ≢ p1) × (p0 ≢ p2) × (p0 ≢ p3) × (p1 ≢ p2) × (p1 ≢ p3) × (p2 ≢ p3)
      → read_entry m.mem (table_at p0) (idx0 va) ≡ 0
      → source.pages_alloc 1 1 m.pages ≡ some (p1 * 4096, s1)
      → source.pages_alloc 1 1 s1 ≡ some (p2 * 4096, s2)
      → source.pages_alloc 1 1 s2 ≡ some (p3 * 4096, states 0)
      → ArePages count page_of
      → Gives source get_phys_space va count page_of states
      → Builds
  insert-Builds s1 s2 page room small kind some_pages few le ne empty a1 a2 a3 are_pages gives =
      let (mem, walk, blank, tables, same) =
        traverse-Tables source va p0 p1 p2 p3 s1 s2 (states 0) m (omega arith) le.0 le.1 le.2 ne.0
          ne.1 ne.2 ne.3 ne.4 ne.5 empty a1 a2 a3 in
      let t3 : ℕ = table_at p3 in
      let value : ℕ → ℕ = page_value source t3 (idx3 va) type page_of in
      let filled : Memory = mapped source t3 va count type page_of mem in
      let kept : (addr : ℕ) → IsApart t3 addr → filled addr ≡ mem addr =
        λ addr out. mapped_outside source t3 va count type page_of mem addr room out in
      let walks =
        Tables-kept mem va p0 p1 p2 p3 tables filled (omega arith) (ne.2, ne.4, ne.5) kept in
      record {
        out = record { mem = filled; pages = states count };
        returns =
            insert_small source get_phys_space (table_at p0) va count type m (omega arith) few
            ∙ map_units-fill source t3 (idx3 va) type page_of get_phys_space va count states gives
                (table_at p0) m mem some_pages room (omega arith) walk
                (λ i low high. blank i (omega arith));
        pages = refl;
        translated = λ offset h.
            mapped_translates source t3 va count type page_of (table_at p0) offset mem page room
              small kind are_pages h
              (Tables-WalksTo3 filled va p0 p1 p2 p3 walks (va + offset) (omega arith) le);
        tables = walks;
        leaves = λ i low high. fill_inside value t3 count (idx3 va) mem i low high;
        others = λ i h out.
            fill_outside value t3 count (idx3 va) mem (t3 + 8 * i) (omega arith) ∙ blank i h;
        outside = λ addr o1 o2 o3 away. kept addr o3 ∙ same addr o1 o2 o3 away;
      }
