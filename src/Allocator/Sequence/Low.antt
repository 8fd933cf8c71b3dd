-- ===== src/Allocator/Sequence/Low.antt =====
-- allocator.c: the pages that calls of `memory_allocator_claim_page` give while low pages are free.
use pi_vos.Prelude.{
  ℕ, zero, suc, ◌+◌, ◌^◌, ◌≤◌, ◌<◌, ◌≡◌, arith, ◌==◌, inl, inr, Bool-cases, min, leb,
}
use pi_vos.Allocator.{Bitmap, Allocator}
use pi_vos.Allocator.Entry.{claimed}
use pi_vos.Allocator.Multiple.{claim_mark}
use pi_vos.Allocator.Valid.{IsValid, page_count}
use pi_vos.Allocator.Sequence.{
  count_free, count_free-agree, count_free-full, free_count, after, page_at, claims,
}

-- The free pages below 64 GB where a page has 4 KB.
abbrev pub free_low : Allocator → ℕ
free_low a = count_free (min (2 ^ 24) (page_count a)) a.bitmap

count_free_mono : (n m : ℕ) (b : Bitmap) → n ≤ m → count_free n b ≤ count_free m b
unfolding count_free
count_free_mono n zero b h = let e : n ≡ 0 = omega arith in rw e (omega arith)
count_free_mono n (suc m) b h = elim (Bool-cases (n == suc m)) [
  | inl same ↦ let e : n ≡ suc m = ground arith in rw e (omega arith)
  | inr less ↦ let rest = count_free_mono n m b (ground arith) in omega arith
]

pub free_low-le : (a : Allocator) → free_low a ≤ free_count a
free_low-le a = count_free_mono (min (2 ^ 24) (page_count a)) (page_count a) a.bitmap (ground arith)

pub free_low-lt : (a : Allocator) (n : ℕ) → n < free_low a → n < free_count a
free_low-lt a n h = let room = free_low-le a in omega arith

-- A claim takes at most one of the pages.
count_free-lost :
    (n page : ℕ) (b out : Bitmap)
    → ((q : ℕ) → claimed out q ≡ claim_mark page 1 q (claimed b q))
    → count_free n b ≤ count_free n out + 1
unfolding count_free
count_free-lost zero page b out marks = omega arith
count_free-lost (suc n) page b out marks = elim (Bool-cases (page == n)) [
  | inl here ↦
      let rest : count_free n out ≡ count_free n b =
        count_free-agree n b out (λ q less. ground (arith, marks q)) in
      ground arith
  | inr other ↦
      let rest = count_free-lost n page b out marks in
      let same : claimed out n ≡ claimed b n = ground (arith, marks n) in rw same (omega arith)
]

count_free-after :
    (a : Allocator) (limit n : ℕ)
    → IsValid a
    → n ≤ free_count a
    → count_free limit a.bitmap ≤ count_free limit (after a n).bitmap + n
unfolding after
count_free-after a limit zero v few = omega arith
count_free-after a limit (suc n) v few =
    let c = claims a n v (omega arith) in
    let lost =
      count_free-lost limit (page_at a n) (after a n).bitmap (after a (suc n)).bitmap c.marks in
    let so_far = count_free-after a limit n v (omega arith) in omega arith

-- While a page below 64 GB is free, the next call gives one.
pub page_at-low : (a : Allocator) (n : ℕ) → IsValid a → n < free_low a → page_at a n < 2 ^ 24
page_at-low a n v few = elim (Bool-cases (leb (2 ^ 24) (page_at a n))) [
  | inl high ↦
      let limit : ℕ = min (2 ^ 24) (page_count a) in
      let room = free_low-le a in
      let c = claims a n v (omega arith) in
      let below : limit ≤ page_at a n = ground arith in
      let full =
        count_free-full limit (after a n).bitmap (λ q h. c.first q (omega (arith, below))) in
      let kept = count_free-after a limit n v (omega arith) in absurd (omega arith)
  | inr low ↦ ground arith
]
