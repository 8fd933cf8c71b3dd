-- ===== src/Memory/Kernel/Whole.antt =====
-- memory.c: the state after `memory_init`.
use pi_vos.Prelude.{
  ℕ, ◌+◌, ◌-◌, ◌*◌, ◌/◌, ◌^◌, ◌≤◌, ◌<◌, ◌≡◌, refl, arith, ◌∙◌, sym, true, some, ap, ◌⊎◌,
}
use mathlib.Core.Path.{subst}
use pi_vos.Allocator.{Allocator}
use pi_vos.Allocator.Valid.{IsValid, is_claimed}
use pi_vos.Allocator.Sequence.{free_count, after, claims_before}
use pi_vos.Allocator.Sequence.Low.{free_low, free_low-le}
use pi_vos.Allocator.Sequence.Taken.{claimed-after}
use pi_vos.Mmu.Tables.{Memory, read_entry}
use pi_vos.Mmu.Walk.{Machine}
use pi_vos.Mmu.Walk.Steps.{table_at}
use pi_vos.Mmu.Translate.{WalksTo2, idx1, idx2}
use pi_vos.Memory.{source, init, init_allocator, map_kernel_regions}
use pi_vos.Memory.Kernel.Boot.{BootTables, MapsBlock}
use pi_vos.Memory.Kernel.Identity.{map_kernel_regions_lem}
use pi_vos.Memory.Kernel.Init.{is_reserved, Prepared, prepare, count_free-row}

-- The allocator after more pages were taken.
kept :
    {image blocks : ℕ} (p : Prepared image blocks) (taken : ℕ) (c : Allocator)
    → taken ≤ free_low p.allocator
    → c ≡ after p.allocator taken
    → IsValid c × ((q : ℕ) → is_reserved image blocks q ≡ true → is_claimed c q ≡ true)
kept p taken c low same =
    let room = free_low-le p.allocator in
    let enough : taken ≤ free_count p.allocator = omega arith in
    (
      subst IsValid (sym same) (claims_before p.allocator taken p.valid enough).after_valid,
      λ q h.
          ap (λ a. is_claimed a q) same ∙ claimed-after p.valid taken q enough (p.reserved q ∙ h),
    )

-- `memory_init` on an allocator and tables that are known.
init-runs :
    (image blocks : ℕ) (root : ℕ) (mem : Memory) (a : Allocator) (out : Machine source)
    → init_allocator (blocks * 2 ^ 21) (table_at image) ≡ some a
    → map_kernel_regions (blocks * 2 ^ 21) root (record { mem = mem; pages = a }) ≡ some (tt, out)
    → init (blocks * 2 ^ 21) (table_at image) root mem ≡ some out
unfolding init
init-runs image blocks root mem a out made runs = rw (init, made, runs) refl

-- The pages that are still free, and the pages of the three tables.
free_room :
    {image blocks : ℕ} (p : Prepared image blocks)
    → image ≤ 2 ^ 18
    → 2048 < blocks
    → blocks ≤ 2 ^ 18
    → 1024 ≤ free_low p.allocator
free_room p fits big small =
    count_free-row _ (2 ^ 18 + 2 ^ 13) 1024 p.allocator.bitmap (omega (arith, p.entries))
      (λ q l h. ground (arith, p.reserved q))

image_held :
    {image blocks : ℕ} (p : Prepared image blocks) (q : ℕ)
    → q < image
    → is_claimed p.allocator q ≡ true
image_held p q h = ground (arith, p.reserved q)

-- `memory_init` as a whole, from the tables that the boot code leaves in the last three pages of
-- the image, where the image ends at page `image` below 1 GB, on a memory of whole blocks of 2 MB,
-- more than 4 GB and at most 512 GB. It succeeds, with a valid allocator. Each address below the
-- memory's size is mapped by a block to itself, as a device's memory from 0xF0000000 up to 4 GB and
-- as normal memory elsewhere; no address from the memory's size to 512 GB is mapped. The pages of the image, of
-- the bitmap behind it and of the peripherals are claimed.
pub memory_init_lem :
    (image blocks : ℕ) (mem : Memory)
    → 3 ≤ image
    → image ≤ 2 ^ 18
    → BootTables mem (image - 3)
    → 2048 < blocks
    → blocks ≤ 2 ^ 18
    → let root = table_at (image - 3) in
      (out : Machine source) × (init (blocks * 2 ^ 21) (table_at image) root mem ≡ some out)
      × IsValid out.pages
      × ((va : ℕ)
          → va < blocks * 2 ^ 21
          → (t2 : ℕ) × WalksTo2 out.mem root va t2
            × MapsBlock (va / 2 ^ 21) (read_entry out.mem t2 (idx2 va)))
      × ((va : ℕ)
          → blocks * 2 ^ 21 ≤ va
          → va < 2 ^ 39
          → (read_entry out.mem (table_at (image - 3 + 1)) (idx1 va) ≡ 0)
            ⊎ ((t2 : ℕ) × WalksTo2 out.mem root va t2 × (read_entry out.mem t2 (idx2 va) ≡ 0)))
      × ((q : ℕ) → is_reserved image blocks q ≡ true → is_claimed out.pages q ≡ true)
memory_init_lem image blocks mem low fits boot big small =
    let p = prepare image blocks (omega arith) fits big small in
    let row = free_room p fits big small in
    let held = λ (k : ℕ) (h : k < 3). image_held p (image - 3 + k) (omega arith) in
    let first = image_held p (image - 3) (omega arith) in
    let (out, runs, mapped, unmapped, (taken, few, same)) =
      map_kernel_regions_lem (record { mem = mem; pages = p.allocator }) (image - 3) blocks p.valid
        p.page_bytes (omega arith) (first, held 1 (omega arith), held 2 (omega arith)) boot big
        small (omega (arith, row)) in
    let k = kept p taken out.pages (omega (arith, row, few)) same in
    (out, init-runs image blocks _ mem p.allocator out p.returns runs, k.0, mapped, unmapped, k.1)
