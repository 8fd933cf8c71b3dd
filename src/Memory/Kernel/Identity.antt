-- ===== src/Memory/Kernel/Identity.antt =====
-- memory.c: the kernel's map after `memory_init`, from the tables that boot/mmu.S leaves.
use pi_vos.Prelude.{
  ℕ, ◌+◌, ◌-◌, ◌*◌, ◌/◌, ◌^◌, ◌≤◌, ◌<◌, ◌≡◌, refl, arith, ◌∙◌, sym, true, false, some, ap, ◌⊎◌, inl,
  inr, Bool-cases,
}
use mathlib.Core.Path.{subst}
use pi_vos.Word.{sub64}
use pi_vos.Allocator.{Allocator}
use pi_vos.Allocator.Valid.{IsValid, is_claimed}
use pi_vos.Allocator.Sequence.{after}
use pi_vos.Allocator.Sequence.Low.{free_low}
use pi_vos.Mmu.Tables.{Memory, read_entry, new_table_entry}
use pi_vos.Mmu.Entries.{type_of_lem}
use pi_vos.Mmu.Walk.{Machine, M, ◌>>=◌, ◌>>◌}
use pi_vos.Mmu.Walk.Steps.{table_at}
use pi_vos.Mmu.Walk.Builds.{leads_to}
use pi_vos.Mmu.Translate.{WalksTo2, idx0, idx1, idx2}
use pi_vos.Proc.{one_to_one}
use pi_vos.Memory.{source, map_kernel_regions, kernel_regions, map_region, peripherials_end}
use pi_vos.Memory.Blocks.{Shape, Tree}
use pi_vos.Memory.Kernel.{map_region-Extends}
use pi_vos.Memory.Kernel.Boot.{
  BootTables, boot_map, boot_shape, boot-Tree, map1, map2, map3, boot_map-IsFit, map3-MapsBlock,
  map3-eq-zero, MapsBlock,
}

three_regions :
    (c1 c2 c3 : M source (Unit {0})) (m m1 m2 m3 : Machine source)
    → c1 m ≡ some (tt, m1)
    → c2 m1 ≡ some (tt, m2)
    → c3 m2 ≡ some (tt, m3)
    → (do c1; c2; c3) m ≡ some (tt, m3)
three_regions c1 c2 c3 m m1 m2 m3 r1 r2 r3 = rw (◌>>◌, ◌>>=◌, r1, r2, r3) refl

abbrev region_command : ℕ → ℕ → ℕ → ℕ → M source (Unit {0})
region_command p0 type n bytes =
    map_region (table_at p0) (record { memory_type = type; va = n * 2 ^ 21; size = bytes })
      one_to_one

-- What the three calls leave.
record KernelTree (a : Allocator) (p0 blocks : ℕ) (m : Machine source) : Type 0 where
  shape : Shape
  out : Memory
  returns :
      map_kernel_regions (blocks * 2 ^ 21) (table_at p0) m
      ≡ some (tt, record { mem = out; pages = after a shape.taken })
  tree_after : Tree a p0 (p0 + 1) shape (map3 blocks) out
  few_taken : shape.taken ≤ blocks / 512 + 2

kernel_tree :
    {a : Allocator} (v : IsValid a) (pages : a.page_size ≡ 4096) (p0 blocks : ℕ) (mem : Memory)
    → p0 + 2 < 2 ^ 24
    → 2048 < blocks
    → blocks ≤ 2 ^ 18
    → blocks / 512 + 2 ≤ free_low a
    → Tree a p0 (p0 + 1) (boot_shape p0) boot_map mem
    → KernelTree a p0 blocks (record { mem = mem; pages = after a 0 })
unfolding map_kernel_regions kernel_regions
kernel_tree {a} v pages p0 blocks mem low big small few tree =
    let r1 =
      map_region-Extends v pages p0 (p0 + 1) 0 0 1920 (boot_shape p0) boot_map mem (omega arith)
        (omega arith) (omega arith) (ground arith) (λ k l h. boot_map-IsFit k) tree in
    let r2 =
      map_region-Extends v pages p0 (p0 + 1) 1 1920 128 r1.shape map1 r1.out (omega arith)
        (omega arith) (omega arith) (ground (arith, r1.few_taken)) (λ k l h. inl (ground arith))
        r1.tree_after in
    let r3 =
      map_region-Extends v pages p0 (p0 + 1) 0 2048 (blocks - 2048) r2.shape map2 r2.out
        (omega arith) (omega arith) (omega arith) (ground (arith, r1.few_taken, r2.few_taken))
        (λ k l h. inl (ground arith)) r2.tree_after in
    let size : (blocks - 2048) * 2 ^ 21 ≡ sub64 (blocks * 2 ^ 21) peripherials_end = omega arith in
    record {
      shape = r3.shape;
      out = r3.out;
      returns =
          three_regions (region_command p0 0 0 (1920 * 2 ^ 21))
            (region_command p0 1 1920 (128 * 2 ^ 21))
            (region_command p0 0 2048 (sub64 (blocks * 2 ^ 21) peripherials_end))
            (record { mem = mem; pages = after a 0 })
            (record { mem = r1.out; pages = after a r1.shape.taken })
            (record { mem = r2.out; pages = after a r2.shape.taken })
            (record { mem = r3.out; pages = after a r3.shape.taken }) r1.returns r2.returns
            (ap
                (λ bytes.
                  region_command p0 0 2048 bytes
                    (record { mem = r2.out; pages = after a r2.shape.taken }))
                (sym size)
              ∙ r3.returns);
      tree_after = r3.tree_after;
      few_taken = ground (arith, r1.few_taken, r2.few_taken, r3.few_taken);
    }

-- The walk to the block of an address.
module _ {a : Allocator} {p0 p1 : ℕ} {t : Shape} {e : ℕ → ℕ} {mem : Memory} (low : p1 < 2 ^ 24)
    (tree : Tree a p0 p1 t e mem) (va : ℕ) (small : va < 2 ^ 39) where
  tree-WalksTo2 :
      t.has (va / 2 ^ 30) ≡ true → WalksTo2 mem (table_at p0) va (table_at (t.tab (va / 2 ^ 30)))
  tree-WalksTo2 has =
      let j : ℕ = va / 2 ^ 30 in
      let i0 : idx0 va ≡ 0 = omega arith in
      let i1 : idx1 va ≡ j = omega arith in
      let entry : read_entry mem (table_at p1) j ≡ new_table_entry (table_at (t.tab j)) =
        tree.level1 j (omega arith) ∙ rw has refl in
      let l0 = leads_to mem (table_at p0) (idx0 va) p1 low (rw i0 tree.root) in
      let l1 =
        leads_to mem (table_at p1) (idx1 va) (t.tab j) (tree.tab_apart j has).2 (rw i1 entry) in
      record { t1 = table_at p1; entry0 = l0.0; sub0 = l0.1; entry1 = l1.0; sub1 = l1.1 }

  tree_entry :
      t.has (va / 2 ^ 30) ≡ true
      → read_entry mem (table_at (t.tab (va / 2 ^ 30))) (idx2 va) ≡ e (va / 2 ^ 21)
  tree_entry has =
      let at : va / 2 ^ 30 * 512 + idx2 va ≡ va / 2 ^ 21 = omega arith in
      tree.level2 (va / 2 ^ 30) (idx2 va) (omega arith) (omega arith) has ∙ ap e at

  blank_entry : t.has (va / 2 ^ 30) ≡ false → e (va / 2 ^ 21) ≡ 0
  blank_entry lacks =
      let at : va / 2 ^ 30 * 512 + idx2 va ≡ va / 2 ^ 21 = omega arith in
      ap e (sym at) ∙ tree.blank (va / 2 ^ 30) (idx2 va) (omega arith) lacks

-- The regions that `memory_init` maps, from the tables that the boot code leaves: on a memory of
-- whole blocks of 2 MB, more than 4 GB and at most 512 GB, where the allocator is valid, has a free
-- page for each GB and two more, and has claimed the pages of the boot tables, the three calls
-- succeed, take at most that many pages, and map each address below the memory's size by a block to
-- itself, as a device's memory from 0xF0000000 up to 4 GB and as normal memory elsewhere. No address
-- from the memory's size to 512 GB is mapped.
pub map_kernel_regions_lem :
    (m : Machine source) (p0 blocks : ℕ)
    → IsValid m.pages
    → m.pages.page_size ≡ 4096
    → p0 + 2 < 2 ^ 24
    → (is_claimed m.pages p0 ≡ true)
      × (is_claimed m.pages (p0 + 1) ≡ true)
      × (is_claimed m.pages (p0 + 2) ≡ true)
    → BootTables m.mem p0
    → 2048 < blocks
    → blocks ≤ 2 ^ 18
    → blocks / 512 + 2 ≤ free_low m.pages
    → (out : Machine source) × (map_kernel_regions (blocks * 2 ^ 21) (table_at p0) m
        ≡ some (tt, out))
      × ((va : ℕ)
          → va < blocks * 2 ^ 21
          → (t2 : ℕ) × WalksTo2 out.mem (table_at p0) va t2
            × MapsBlock (va / 2 ^ 21) (read_entry out.mem t2 (idx2 va)))
      × ((va : ℕ)
          → blocks * 2 ^ 21 ≤ va
          → va < 2 ^ 39
          → (read_entry out.mem (table_at (p0 + 1)) (idx1 va) ≡ 0)
            ⊎ ((t2 : ℕ) × WalksTo2 out.mem (table_at p0) va t2
                × (read_entry out.mem t2 (idx2 va) ≡ 0)))
      × ((taken : ℕ) × (taken ≤ blocks / 512 + 2) × (out.pages ≡ after m.pages taken))
unfolding after
map_kernel_regions_lem m p0 blocks v pages low held boot big small few =
    let k =
      kernel_tree v pages p0 blocks m.mem low big small few
        (boot-Tree m.pages m.mem p0 low held.0 held.1 held.2 boot) in
    (
      record { mem = k.out; pages = after m.pages k.shape.taken },
      k.returns,
      λ va h. elim (Bool-cases (k.shape.has (va / 2 ^ 30))) [
        | inl has ↦ (
          table_at (k.shape.tab (va / 2 ^ 30)),
          tree-WalksTo2 (omega arith) k.tree_after va (omega arith) has,
          subst (MapsBlock (va / 2 ^ 21))
              (sym (tree_entry (omega arith) k.tree_after va (omega arith) has))
              (map3-MapsBlock (va / 2 ^ 21) blocks (omega arith) small),
        )
        | inr lacks ↦
            let z = blank_entry (omega arith) k.tree_after va (omega arith) lacks in
            let b = map3-MapsBlock (va / 2 ^ 21) blocks (omega arith) small in
            absurd (omega (arith, z, type_of_lem (map3 blocks (va / 2 ^ 21)), b.0))
      ],
      λ va h top. elim (Bool-cases (k.shape.has (va / 2 ^ 30))) [
        | inl has ↦ inr (
          table_at (k.shape.tab (va / 2 ^ 30)),
          tree-WalksTo2 (omega arith) k.tree_after va top has,
          tree_entry (omega arith) k.tree_after va top has
              ∙ map3-eq-zero (va / 2 ^ 21) blocks (omega arith) (omega arith),
        )
        | inr lacks ↦
            let at : idx1 va ≡ va / 2 ^ 30 = omega arith in
            inl (rw at (k.tree_after.level1 (va / 2 ^ 30) (omega arith) ∙ rw lacks refl))
      ],
      (k.shape.taken, k.few_taken, refl),
    )
