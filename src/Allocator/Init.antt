-- ===== src/Allocator/Init.antt =====
-- `memory_allocator_init`: the bitmap that it makes claims exactly the pages of the bitmap itself.
use native.Mathlib.Nat.{mul-le-mul_right, one-le-pow, le_trans}
use pi_vos.Prelude.{
  ℕ, zero, suc, ◌+◌, ◌-◌, ◌*◌, ◌/◌, ◌%◌, ◌^◌, ◌≤◌, ◌<◌, ◌≡◌, refl, arith, some, replicate,
  length-replicate, get_or-replicate, max,
}
use pi_vos.Word.{u64, align_up64}
use pi_vos.Word.Align.{align_up64_lem, round_up-add}
use pi_vos.Word.Bits.{test_bit-zero}
use pi_vos.Allocator.{Allocator, claim_range, init}
use pi_vos.Allocator.Entry.{in_range}
use pi_vos.Allocator.Multiple.{claim_mark}
use pi_vos.Allocator.Valid.{IsValid, Marks, is_claimed}
use pi_vos.Allocator.Address.{claim_range-Marks, span_pages}

-- `ALIGN_UP(c, 2 ^ k)` in pages
abbrev pub pages_for : ℕ → ℕ → ℕ
pages_for c k = (c + 2 ^ k - 1) / 2 ^ k

-- The state before the bitmap's own pages are claimed, for `count` entries at page `i`.
abbrev cleared : ℕ → ℕ → ℕ → ℕ → Allocator
cleared i s count k = record {
  bitmap = replicate count 0;
  bitmap_addr = i * 2 ^ k + s * 2 ^ 48;
  entry_count = count;
  page_size = 2 ^ k;
}

module _ (i s count k : ℕ) (hk : k < 48) (small : count < 2 ^ 26)
    (span : count * 64 * 2 ^ k ≤ 2 ^ 48) (hs : s < 2 ^ 16)
    (fits : i + max 1 (pages_for (count * 8) k) < count * 64) where
  cleared-IsValid : IsValid (cleared i s count k)
  cleared-IsValid = record {
    size = length-replicate count 0;
    words = λ e. rw (get_or-replicate {A = ℕ} count e 0) (omega arith);
    small = omega arith;
    page_pos = one-le-pow k 2 (omega arith);
    span = span;
  }

  -- A page of the bitmap ends below 2 ^ 48.
  page_end-le : (page : ℕ) → page < count * 64 → page * 2 ^ k + 2 ^ k ≤ 2 ^ 48
  page_end-le page h =
      let m : suc page * 2 ^ k ≤ count * 64 * 2 ^ k = mul-le-mul_right (2 ^ k) h in
      omega (arith, span, m)

  held_bytes-le : count * 8 ≤ pages_for (count * 8) k * 2 ^ k
  held_bytes-le = omega (arith, one-le-pow k 2)

  max_one : (n : ℕ) → count * 8 ≤ n * 2 ^ k → max 1 n ≡ n
  max_one zero h = absurd (omega (arith, fits, h))
  max_one (suc n) h = omega arith

  held_pages-pos : max 1 (pages_for (count * 8) k) ≡ pages_for (count * 8) k
  held_pages-pos = max_one (pages_for (count * 8) k) held_bytes-le

  -- where the bitmap ends, rounded up to a page
  bitmap_end_lem :
      align_up64 (u64 (i * 2 ^ k + s * 2 ^ 48 + count * 8)) (2 ^ k)
      ≡ (i + pages_for (count * 8) k) * 2 ^ k + s * 2 ^ 48
  bitmap_end_lem =
      let top : (i + pages_for (count * 8) k) * 2 ^ k + 2 ^ k ≤ 2 ^ 48 =
        page_end-le (i + pages_for (count * 8) k) (omega (arith, held_pages-pos)) in
      let e : u64 (i * 2 ^ k + s * 2 ^ 48 + count * 8) ≡ i * 2 ^ k + s * 2 ^ 48 + count * 8 =
        omega (arith, held_bytes-le) in
      rw
        (
          e,
          align_up64_lem (i * 2 ^ k + s * 2 ^ 48 + count * 8) k (omega arith)
              (omega (arith, held_bytes-le, top)),
        )
        (round_up-add (count * 8) i s k 48 (omega arith))

  init_claims : Marks (claim_mark i (max 1 (pages_for (count * 8) k))) (cleared i s count k) (
      claim_range
        (cleared i s count k)
        (i * 2 ^ k + s * 2 ^ 48)
        ((i + pages_for (count * 8) k) * 2 ^ k + s * 2 ^ 48))
  init_claims =
      let held = pages_for (count * 8) k in
      let e : span_pages i (i + held) ≡ max 1 held = omega arith in
      let low = page_end-le i (omega arith) in
      let high = page_end-le (i + held) (omega (arith, held_pages-pos)) in
      rw e at (
        claim_range-Marks cleared-IsValid i (i + held) s s (omega arith) (omega (arith, e))
          (omega arith, omega (arith, low, one-le-pow k 2))
          (omega (arith, held_pages-pos), omega (arith, high, one-le-pow k 2)))

-- For fewer than `2 ^ 32` pages of `2 ^ k` bytes that span at most 48 bits, with `k < 48`, and a bitmap
-- that ends before the last page, `init` puts the bitmap at the page of address `i * 2 ^ k` (with any
-- tag `s` of 16 bits above bit 48) and returns a valid allocator with an entry for each 64 pages and the given page size, in which the pages that hold the
-- bitmap itself are claimed, at least one, and all others are free; no access faults.
pub init-claimed :
    (i s number_of_pages k : ℕ)
    → k < 48
    → number_of_pages < 2 ^ 32
    → number_of_pages * 2 ^ k ≤ 2 ^ 48
    → s < 2 ^ 16
    → let count = number_of_pages / 64 in
      let used = max 1 (pages_for (count * 8) k) in
      i + used < count * 64
      → (a : Allocator) × (init (i * 2 ^ k + s * 2 ^ 48) number_of_pages (2 ^ k) ≡ some a)
        × IsValid a
        × (a.entry_count ≡ count)
        × (a.page_size ≡ 2 ^ k)
        × ((page : ℕ) → is_claimed a page ≡ in_range i used page)
unfolding init
init-claimed i s number_of_pages k hk hn span hs fits =
    let count = number_of_pages / 64 in
    let small : count < 2 ^ 26 = omega arith in
    let narrow : count * 64 * 2 ^ k ≤ 2 ^ 48 =
      le_trans (mul-le-mul_right (2 ^ k) (let h : count * 64 ≤ number_of_pages = omega arith in h))
        span in
    let m = init_claims i s count k hk small narrow hs fits in
    (
      record (cleared i s count k) { bitmap = m.out },
      rw (bitmap_end_lem i s count k hk small narrow hs fits) m.returns,
      m.valid,
      refl,
      refl,
      λ page. ground (
        arith,
        m.pages page,
        get_or-replicate {A = ℕ} count (page / 64) 0,
        test_bit-zero (63 - page % 64),
      ),
    )
