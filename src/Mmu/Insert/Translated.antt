-- ===== src/Mmu/Insert/Translated.antt =====
-- mmu.c: `memory_mmu_insert` of a region one to one within one level 3 table, and
-- `memory_mmu_va_to_pa` after it.
use pi_vos.Prelude.{ℕ, ◌+◌, ◌*◌, ◌%◌, ◌^◌, ◌≤◌, ◌<◌, ◌≡◌, ◌≢◌, refl, arith, some, ◌∙◌}
use pi_vos.Word.{kernel_space_mask}
use pi_vos.Mmu.Tables.{Memory, read_entry, get_subtable}
use pi_vos.Mmu.Fill.{IsApart}
use pi_vos.Mmu.Walk.{PageSource, Machine}
use pi_vos.Mmu.Walk.Steps.{table_at, traverse_walks}
use pi_vos.Mmu.Translate.{va_to_pa, WalksTo3, idx0, idx1, idx2, idx3}
use pi_vos.Mmu.Insert.{insert}
use pi_vos.Mmu.Insert.Pages.{one_to_one, one_to_one-Gives, map_units-fill}
use pi_vos.Mmu.Insert.Mapped.{
  insert_small, mapped, mapped_outside, mapped_translates, ArePages, insert-Builds,
}

-- The pages of the region itself.
abbrev itself : ℕ → ℕ → ℕ
itself va k = va + k * 4096

itself-ArePages :
    (va count : ℕ) → va % 4096 ≡ 0 → va + count * 4096 ≤ 2 ^ 36 → ArePages count (itself va)
itself-ArePages va count page small k h = (omega arith, omega arith)

module _ (source : PageSource) (t3 va count type : ℕ) (page : va % 4096 ≡ 0)
    (room : idx3 va + count ≤ 512) (small : va + count * 4096 ≤ 2 ^ 36) (kind : type < 8) where
  abbrev after : Memory → Memory
  after mem = mapped source t3 va count type (itself va) mem

  still_outside : (mem : Memory) (addr : ℕ) → IsApart t3 addr → after mem addr ≡ mem addr
  still_outside mem addr out = mapped_outside source t3 va count type (itself va) mem addr room out

  still_walks :
      (t0 offset : ℕ) (mem : Memory) (w : WalksTo3 mem t0 va t3)
      → offset < count * 4096
      → IsApart t3 (t0 + 8 * idx0 va)
      → IsApart t3 (w.above.t1 + 8 * idx1 va)
      → IsApart t3 (w.t2 + 8 * idx2 va)
      → WalksTo3 (after mem) t0 (va + offset) t3
  unfolding get_subtable
  still_walks t0 offset mem w h out0 out1 out2 =
      let i0 : idx0 (va + offset) ≡ idx0 va = omega arith in
      let i1 : idx1 (va + offset) ≡ idx1 va = omega arith in
      let i2 : idx2 (va + offset) ≡ idx2 va = omega arith in
      let e0 = still_outside mem (t0 + 8 * idx0 va) out0 in
      let e1 = still_outside mem (w.above.t1 + 8 * idx1 va) out1 in
      let e2 = still_outside mem (w.t2 + 8 * idx2 va) out2 in
      record {
        t2 = w.t2;
        above = record {
          t1 = w.above.t1;
          entry0 = rw (i0, e0) w.above.entry0;
          sub0 = rw (i0, e0) w.above.sub0;
          entry1 = rw (i1, e1) w.above.entry1;
          sub1 = rw (i1, e1) w.above.sub1;
        };
        entry2 = rw (i2, e2) w.entry2;
        sub2 = rw (i2, e2) w.sub2;
      }

  -- Inserting a region one to one, of whole pages, at least one and fewer than 512, below 64 GB and of
  -- one of the eight memory types, which the entries from its own on in one level 3 table hold, where
  -- the walk for it leads to a level 3 table whose entries of the region are
  -- empty and which holds none of the walk's other entries: the call succeeds, takes no page from
  -- the source, changes no word outside that table, and from then on each address of the region is
  -- translated to itself in the kernel's half.
  pub insert_in_table :
      (t0 : ℕ) (m : Machine source)
      → 0 < count
      → count < 512
      → (w : WalksTo3 m.mem t0 va t3) → IsApart t3 (t0 + 8 * idx0 va)
      → IsApart t3 (w.above.t1 + 8 * idx1 va)
      → IsApart t3 (w.t2 + 8 * idx2 va)
      → ((i : ℕ) → idx3 va ≤ i → i < idx3 va + count → read_entry m.mem t3 i ≡ 0)
      → (out : Machine source) × (insert source (one_to_one source) t0 0 va (count * 4096) type m
          ≡ some (tt, out))
        × (out.pages ≡ m.pages)
        × ((addr : ℕ) → IsApart t3 addr → out.mem addr ≡ m.mem addr)
        × ((offset : ℕ)
            → offset < count * 4096
            → va_to_pa out.mem t0 (va + offset) ≡ va + offset + kernel_space_mask)
  insert_in_table t0 m some_pages few w out0 out1 out2 empty = (
    record m { mem = after m.mem },
    insert_small source (one_to_one source) t0 va count type m (omega arith) few
        ∙ map_units-fill source t3 (idx3 va) type (itself va) (one_to_one source) va count
            (λ k. m.pages) (one_to_one-Gives source va count m.pages) t0 m m.mem some_pages room
            (omega arith) (traverse_walks source t0 va t3 m (omega arith) w) empty,
    refl,
    λ addr out. still_outside m.mem addr out,
    λ offset h.
        mapped_translates source t3 va count type (itself va) t0 offset m.mem page room
          (omega arith) kind (itself-ArePages va count page small) h
          (still_walks t0 offset m.mem w h out0 out1 out2)
        ∙ omega arith,
  )

-- Inserting a region one to one, of whole pages, at least one and fewer than 512, below 64 GB and of
-- one of the eight memory types, which the entries from its own on in one level 3 table hold, where
-- the level 0 entry is empty and the page source gives three pages below 64 GB, apart from each other
-- and from the level 0 table: the call succeeds, takes those three pages and no more,
-- each address of the region is translated to itself in the kernel's half, and no word changes but
-- those of the three pages and the level 0 entry.
pub insert_builds :
    (source : PageSource) (va p0 p1 p2 p3 : ℕ) (s1 s2 s3 : source.State) (m : Machine source)
    (count type : ℕ)
    → va % 4096 ≡ 0
    → idx3 va + count ≤ 512
    → va + count * 4096 ≤ 2 ^ 36
    → type < 8
    → 0 < count
    → count < 512
    → (p1 < 2 ^ 24) × (p2 < 2 ^ 24) × (p3 < 2 ^ 24)
    → (p0 ≢ p1) × (p0 ≢ p2) × (p0 ≢ p3) × (p1 ≢ p2) × (p1 ≢ p3) × (p2 ≢ p3)
    → read_entry m.mem (table_at p0) (idx0 va) ≡ 0
    → source.pages_alloc 1 1 m.pages ≡ some (p1 * 4096, s1)
    → source.pages_alloc 1 1 s1 ≡ some (p2 * 4096, s2)
    → source.pages_alloc 1 1 s2 ≡ some (p3 * 4096, s3)
    → (out : Machine source) × (insert source
          (one_to_one source)
          (table_at p0)
          0
          va
          (count * 4096)
          type
          m
        ≡ some (tt, out))
      × (out.pages ≡ s3)
      × ((offset : ℕ)
          → offset < count * 4096
          → va_to_pa out.mem (table_at p0) (va + offset) ≡ va + offset + kernel_space_mask)
      × ((addr : ℕ)
          → IsApart (table_at p1) addr
          → IsApart (table_at p2) addr
          → IsApart (table_at p3) addr
          → addr ≢ table_at p0 + 8 * idx0 va
          → out.mem addr ≡ m.mem addr)
insert_builds source va p0 p1 p2 p3 s1 s2 s3 m count type page room small kind some_pages few le ne
      empty a1 a2 a3 =
    let b =
      insert-Builds source (one_to_one source) va p0 p1 p2 p3 count type m (itself va) (λ k. s3) s1
        s2 page room (omega arith) kind some_pages few le ne empty a1 a2 a3
        (itself-ArePages va count page small) (one_to_one-Gives source va count s3) in
    (b.out, b.returns, b.pages, (λ offset h. b.translated offset h ∙ omega arith), b.outside)
