-- ===== src/Memory/Kernel/Init.antt =====
-- memory.c: `memory_init` as a whole, with the symbols of the linker script.
use pi_vos.Prelude.{
  ℕ, zero, suc, ◌+◌, ◌-◌, ◌*◌, ◌/◌, ◌%◌, ◌^◌, ◌≤◌, ◌<◌, ◌≡◌, refl, arith, ◌∙◌, Bool, false, some,
  ap, ap₂, inl, inr, ◌||◌, ltb, max, Bool-cases,
}
use pi_vos.Word.{u32, align_up64, align_down64, strip_kernel_space}
use pi_vos.Word.Align.{align_up64_lem}
use pi_vos.Allocator
use pi_vos.Allocator.{Bitmap, Allocator, claim_range}
use pi_vos.Allocator.Entry.{claimed, in_range}
use pi_vos.Allocator.Valid.{IsValid, is_claimed, page_count, strip_kernel_space_lem}
use pi_vos.Allocator.Address.{span_pages, claim_range-Marks}
use pi_vos.Allocator.Init.{pages_for, init-claimed}
use pi_vos.Allocator.Sequence.{count_free}
use pi_vos.Mmu.Reg.{page_size}
use pi_vos.Mmu.Walk.Steps.{table_at}
use pi_vos.Memory.{init_allocator, peripherials_start, peripherials_end}

-- Free pages in a row are among those that are counted.
pub count_free-row :
    (n from count : ℕ) (b : Bitmap)
    → from + count ≤ n
    → ((q : ℕ) → from ≤ q → q < from + count → claimed b q ≡ false)
    → count ≤ count_free n b
unfolding count_free
count_free-row zero from count b h row = omega arith
count_free-row (suc n) from zero b h row = omega arith
count_free-row (suc n) from (suc count) b h row = elim (Bool-cases (ltb n (from + suc count))) [
  | inl last ↦
      let e : n ≡ from + count = ground arith in
      let free : claimed b n ≡ false = row n (omega arith) (omega arith) in
      let rest = count_free-row n from count b (omega arith) (λ q l u. row q l (omega arith)) in
      rw free (omega (arith, rest))
  | inr more ↦
      let rest : suc count ≤ count_free n b =
        count_free-row n from (suc count) b (ground arith) row in
      omega (arith, rest)
]

-- The pages that hold the bitmap of `blocks` blocks of 2 MB.
abbrev pub bitmap_pages : ℕ → ℕ
bitmap_pages blocks = max 1 (pages_for (blocks * 8 * 8) 12)

-- The pages that `memory_init` claims: the image, the bitmap behind it and the peripherals.
abbrev pub is_reserved : ℕ → ℕ → ℕ → Bool
is_reserved image blocks q =
    in_range 0 (image + bitmap_pages blocks) q || in_range 0xF0000 0x10000 q

-- The allocator that is prepared.
pub record Prepared (image blocks : ℕ) : Type 0 where
  pub allocator : Allocator
  pub returns : init_allocator (blocks * 2 ^ 21) (table_at image) ≡ some allocator
  pub valid : IsValid allocator
  pub page_bytes : allocator.page_size ≡ 4096
  pub entries : allocator.entry_count ≡ blocks * 8
  pub reserved : (q : ℕ) → is_claimed allocator q ≡ is_reserved image blocks q

-- One call of `memory_allocator_claim_range`.
record Claimed (a : Allocator) (i j : ℕ) : Type 0 where
  out : Allocator
  runs : claim_range a (i * 4096) (j * 4096) ≡ some out
  out_valid : IsValid out
  out_size : out.page_size ≡ 4096
  out_entries : out.entry_count ≡ a.entry_count
  out_marks : (q : ℕ) → is_claimed out q ≡ (is_claimed a q || in_range i (j - i) q)

claim_range-Claimed :
    (a : Allocator) (i j : ℕ)
    → IsValid a
    → a.page_size ≡ 4096
    → i < j
    → j ≤ page_count a
    → j ≤ 2 ^ 24
    → Claimed a i j
claim_range-Claimed a i j v size h room low =
    let count : span_pages i j ≡ j - i = omega arith in
    let from : i * 4096 ≡ i * a.page_size + 0 * 2 ^ 48 = rw size (omega arith) in
    let to : j * 4096 ≡ j * a.page_size + 0 * 2 ^ 48 = rw size (omega arith) in
    let m =
      claim_range-Marks {a = a} v i j 0 0 (omega arith) (omega (arith, count))
        (omega arith, rw size (omega arith)) (omega arith, rw size (omega arith)) in
    record {
      out = record a { bitmap = m.out };
      runs = ap₂ (claim_range a) from to ∙ m.returns;
      out_valid = m.valid;
      out_size = size;
      out_entries = refl;
      out_marks = λ q. m.pages q ∙ ap (λ c. is_claimed a q || in_range i c q) count;
    }

peripherals_aligned :
    (align_down64 peripherials_start page_size ≡ 0xF0000 * 4096)
    × (align_up64 peripherials_end page_size ≡ 0x100000 * 4096)
unfolding align_down64 align_up64
peripherals_aligned = (refl, refl)

-- The three calls of the allocator.
init_allocator_lem :
    (image size : ℕ) (a b c : Allocator)
    → Allocator.init (align_up64 (table_at image) page_size) (u32 (size / page_size)) page_size
      ≡ some a
    → claim_range a 0 (align_up64 (strip_kernel_space (table_at image)) page_size) ≡ some b
    → claim_range b (0xF0000 * 4096) (0x100000 * 4096) ≡ some c
    → init_allocator size (table_at image) ≡ some c
unfolding init_allocator
init_allocator_lem image size a b c e1 e2 e3 =
    rw (init_allocator, e1, e2, peripherals_aligned.0, peripherals_aligned.1, e3) refl

bare_lem : (image : ℕ) → image ≤ 2 ^ 18 → table_at image % 2 ^ 48 ≡ image * 4096
bare_lem image h = omega arith

-- The allocator that its initialisation leaves.
record Fresh (image blocks : ℕ) (a : Allocator) : Type 0 where
  made : Allocator.init (image * 2 ^ 12 + 0xFFFF * 2 ^ 48) (blocks * 512) (2 ^ 12) ≡ some a
  fresh_valid : IsValid a
  fresh_entries : a.entry_count ≡ blocks * 8
  fresh_size : a.page_size ≡ 2 ^ 12
  fresh_marks : (q : ℕ) → is_claimed a q ≡ in_range image (bitmap_pages blocks) q

image_end :
    (image : ℕ)
    → image ≤ 2 ^ 18
    → (align_up64 (table_at image) page_size ≡ image * 2 ^ 12 + 0xFFFF * 2 ^ 48)
      × (align_up64 (strip_kernel_space (table_at image)) page_size ≡ image * 4096)
image_end image fits = (
  align_up64_lem (table_at image) 12 (omega arith) (omega arith) ∙ omega arith,
  ap (λ addr. align_up64 addr page_size)
        (strip_kernel_space_lem (table_at image) ∙ bare_lem image fits)
      ∙ align_up64_lem (image * 4096) 12 (omega arith) (omega arith)
      ∙ omega arith,
)

reserved_pages :
    (image blocks : ℕ) (a : Allocator) (f : Fresh image blocks a) (c1 : Claimed a 0 image)
    (c2 : Claimed c1.out 0xF0000 0x100000) (q : ℕ)
    → is_claimed c2.out q ≡ is_reserved image blocks q
reserved_pages image blocks a f c1 c2 q =
    ground (arith, c2.out_marks q, c1.out_marks q, f.fresh_marks q)

make-Prepared :
    (image blocks : ℕ) (a : Allocator)
    → image ≤ 2 ^ 18
    → blocks ≤ 2 ^ 18
    → (f : Fresh image blocks a) (c1 : Claimed a 0 image) (c2 : Claimed c1.out 0xF0000 0x100000)
    → Prepared image blocks
make-Prepared image blocks a fits small f c1 c2 =
    let ends = image_end image fits in
    let number : u32 (blocks * 2 ^ 21 / page_size) ≡ blocks * 512 = omega arith in
    record {
      allocator = c2.out;
      returns =
          init_allocator_lem image (blocks * 2 ^ 21) a c1.out c2.out
            (ap₂ (λ addr n. Allocator.init addr n page_size) ends.0 number ∙ f.made)
            (ap (claim_range a 0) ends.1 ∙ c1.runs) c2.runs;
      valid = c2.out_valid;
      page_bytes = c2.out_size;
      entries = c2.out_entries ∙ c1.out_entries ∙ f.fresh_entries;
      reserved = reserved_pages image blocks a f c1 c2;
    }

peripherals-Claimed :
    (image blocks : ℕ) (a : Allocator)
    → 2048 < blocks
    → (f : Fresh image blocks a) (c1 : Claimed a 0 image) → Claimed c1.out 0xF0000 0x100000
peripherals-Claimed image blocks a big f c1 =
    claim_range-Claimed c1.out 0xF0000 0x100000 c1.out_valid c1.out_size (omega arith)
      (omega (arith, f.fresh_entries, c1.out_entries)) (omega arith)

image-Claimed :
    (image blocks : ℕ) (a : Allocator)
    → 0 < image
    → image ≤ 2 ^ 18
    → 2048 < blocks
    → Fresh image blocks a
    → Claimed a 0 image
image-Claimed image blocks a low fits big f =
    claim_range-Claimed a 0 image f.fresh_valid f.fresh_size low (omega (arith, f.fresh_entries))
      (omega arith)

allocator-Fresh :
    (image blocks : ℕ)
    → image ≤ 2 ^ 18
    → 2048 < blocks
    → blocks ≤ 2 ^ 18
    → (a : Allocator) × Fresh image blocks a
allocator-Fresh image blocks fits big small =
    let (a, made, v, entries, size, marks) =
      init-claimed image 0xFFFF (blocks * 512) 12 (omega arith) (omega arith) (omega arith)
        (omega arith) (omega arith) in
    let entry : blocks * 512 / 64 ≡ blocks * 8 = omega arith in
    (
      a,
      record {
        made = made;
        fresh_valid = v;
        fresh_entries = entries ∙ entry;
        fresh_size = size;
        fresh_marks =
            λ q. marks q ∙ ap (λ n. in_range image (max 1 (pages_for (n * 8) 12)) q) entry;
      },
    )

prepare_from :
    (image blocks : ℕ) (a : Allocator)
    → 0 < image
    → image ≤ 2 ^ 18
    → 2048 < blocks
    → blocks ≤ 2 ^ 18
    → Fresh image blocks a
    → Prepared image blocks
prepare_from image blocks a low fits big small f =
    let c1 = image-Claimed image blocks a low fits big f in
    make-Prepared image blocks a fits small f c1 (peripherals-Claimed image blocks a big f c1)

pub prepare :
    (image blocks : ℕ)
    → 0 < image
    → image ≤ 2 ^ 18
    → 2048 < blocks
    → blocks ≤ 2 ^ 18
    → Prepared image blocks
prepare image blocks low fits big small =
    let (a, f) = allocator-Fresh image blocks fits big small in
    prepare_from image blocks a low fits big small f
