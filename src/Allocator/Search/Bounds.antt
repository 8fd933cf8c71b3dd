-- ===== src/Allocator/Search/Bounds.antt =====
-- One step of the search: how far it skips, and what one look at an entry shows.
use native.Mathlib.Nat.{pow-suc, one-le-pow}
use pi_vos.Prelude.{
  ℕ, zero, suc, ◌+◌, ◌-◌, ◌*◌, ◌/◌, ◌%◌, ◌^◌, ◌≤◌, ◌<◌, ◌≡◌, ◌≢◌, refl, arith, true, false, ◌⊎◌,
  ltb→lt, bit_and, get_or, ltb, ◌==◌, Bool-cases, inl, inr,
}
use pi_vos.Word.{u32, test_bit}
use pi_vos.Word.Bits.{test_bit-bit_and, test_bit-zero}
use pi_vos.Word.Range.{test_bit_truncate, bit_and-lt}
use pi_vos.Word.Align.{align_up32_lem}
use pi_vos.Allocator.{Bitmap, convert_to_mask}
use pi_vos.Allocator.Mask.{test_bit-convert_to_mask}
use pi_vos.Allocator.Entry.{claimed, in_range}
use pi_vos.Allocator.Search.{skip}

-- `skip` moves on by a positive multiple of the alignment, and no aligned page in between stands
-- after the pages that were checked.
pub record IsSkip (align checked step : ℕ) : Type 0 where
  pub times : ℕ
  pub whole : step ≡ (times + 1) * align
  pub covers : checked ≤ step
  pub last : (times ≡ 0) ⊎ (times * align < checked)

IsSkip-of_multiple :
    (q align checked : ℕ)
    → 0 < checked
    → checked ≤ q * align
    → q * align < checked + align
    → IsSkip align checked (q * align)
IsSkip-of_multiple zero align checked pos low high = absurd (omega arith)
IsSkip-of_multiple (suc t) align checked pos low high = record {
  times = t;
  whole = omega arith;
  covers = low;
  last = inr (omega arith);
}

pub skip-IsSkip :
    (k checked : ℕ)
    → k < 32
    → checked + 2 ^ k ≤ 2 ^ 32
    → IsSkip (2 ^ k) checked (skip checked (2 ^ k))
unfolding skip
skip-IsSkip k checked h l = elim (Bool-cases (ltb (2 ^ k) checked)) [
  | inl more ↦
      let pos = one-le-pow k 2 (omega arith) in
      rw (more, align_up32_lem checked k h l)
        (IsSkip-of_multiple ((checked + 2 ^ k - 1) / 2 ^ k) (2 ^ k) checked
          (omega (arith, ltb→lt (2 ^ k) checked more)) (omega (arith, pos)) (omega (arith, pos)))
  | inr less ↦
      rw less (record { times = 0; whole = omega arith; covers = ground arith; last = inl refl })
]

-- A word that is not zero has a bit.
bit_of_nonzero : (k w : ℕ) → w < 2 ^ k → w ≢ 0 → (i : ℕ) × (i < k) × (test_bit w i ≡ true)
unfolding test_bit
bit_of_nonzero zero w h ne = absurd (ne (omega arith))
bit_of_nonzero (suc k) w h ne = elim (Bool-cases (w % 2 == 1)) [
  | inl odd ↦ (0, omega arith, odd)
  | inr even ↦
      let (i, l, t) =
        bit_of_nonzero k (w / 2) (omega (arith, pow-suc 2 k)) (λ e. ne (ground arith)) in
      (suc i, omega arith, t)
]

-- `(uint32_t) s_bitmap[e] & mask`, for the mask of `n` pages from position `o` on
abbrev pub looked : Bitmap → ℕ → ℕ → ℕ → ℕ
looked b e n o = bit_and (u32 (get_or b e 0)) (convert_to_mask n o)

-- What that says of the entry's pages.
module _ (b : Bitmap) (e n o : ℕ) (hn : n ≤ 64) (ho : o < 64) where
  -- The pages of the chunk in the lower half of the entry are free if it is zero.
  pub free_of_zero :
      looked b e n o ≡ 0
      → (page : ℕ) → page / 64 ≡ e
      → 32 ≤ page % 64
      → in_range o n (page % 64) ≡ true
      → claimed b page ≡ false
  free_of_zero z page here low within = ground (
    arith,
    test_bit-bit_and (63 - page % 64) (u32 (get_or b e 0)) (convert_to_mask n o),
    test_bit-zero (63 - page % 64),
    test_bit_truncate (63 - page % 64) 32 (get_or b e 0),
    test_bit-convert_to_mask n o (page % 64),
  )

  claimed_at :
      (i : ℕ)
      → i < 32
      → test_bit (looked b e n o) i ≡ true
      → (page : ℕ) × (page / 64 ≡ e)
        × (in_range o n (page % 64) ≡ true)
        × (claimed b page ≡ true)
        × (32 ≤ page % 64)
  claimed_at i l t =
      let here : (e * 64 + (63 - i)) / 64 ≡ e = omega arith in
      let position : (e * 64 + (63 - i)) % 64 ≡ 63 - i = omega arith in
      let back : 63 - (63 - i) ≡ i = omega arith in
      let facts = test_bit-bit_and i (u32 (get_or b e 0)) (convert_to_mask n o) in
      (
        e * 64 + (63 - i),
        here,
        rw position (ground (arith, t, facts, test_bit-convert_to_mask n o (63 - i), back)),
        rw (here, position, back) (ground (arith, t, facts, test_bit_truncate i 32 (get_or b e 0))),
        omega (arith, position),
      )

  -- If it is not zero, one of the pages of the chunk is claimed, and stands in the lower half.
  pub claimed_of_nonzero :
      looked b e n o ≢ 0
      → (page : ℕ) × (page / 64 ≡ e)
        × (in_range o n (page % 64) ≡ true)
        × (claimed b page ≡ true)
        × (32 ≤ page % 64)
  claimed_of_nonzero ne =
      let (i, l, t) =
        bit_of_nonzero 32 (looked b e n o) (bit_and-lt 32 _ (convert_to_mask n o) (omega arith))
          ne in
      claimed_at i l t
