-- ===== src/Allocator/Entry.antt =====
-- Reads of the bitmap page by page, and what one `|=` or `&=` of an entry changes.
use pi_vos.Prelude.{
  ℕ, ◌+◌, ◌-◌, ◌/◌, ◌%◌, ◌^◌, ◌≤◌, ◌<◌, ◌≡◌, arith, Bool, not, ◌&&◌, ◌||◌, ltb, leb, ◌==◌,
  if◌then◌else◌, some, length, get_or, set, get_elem?-eq-get_or, get_or-set_self, get_or-set_ne,
  Bool-cases, inl, inr, bit_or, bit_and,
}
use pi_vos.Word.{test_bit, not64}
use pi_vos.Word.Bits.{test_bit-bit_and, test_bit-bit_or, test_bit_complement}
use pi_vos.Allocator.{Bitmap, convert_to_mask, or_entry, and_entry}
use pi_vos.Allocator.Mask.{convert_to_mask-lt, test_bit-convert_to_mask}

-- whether `page` is claimed
abbrev pub claimed : Bitmap → ℕ → Bool
claimed b page = test_bit (get_or b (page / 64) 0) (63 - page % 64)

-- whether `page` is one of the `count` pages from `from` on
abbrev pub in_range : ℕ → ℕ → ℕ → Bool
in_range from count page = leb from page && ltb page (from + count)

-- the entries are 64-bit words
abbrev pub AreWords : Bitmap → Type 0
AreWords b = (i : ℕ) → get_or b i 0 < 2 ^ 64

pub or_entry_lem :
    (b : Bitmap) (e m : ℕ)
    → e < length b
    → or_entry b e m ≡ some (set b e (bit_or (get_or b e 0) m))
unfolding or_entry
or_entry_lem b e m h = rw (get_elem?-eq-get_or b e 0 h)

pub and_entry_lem :
    (b : Bitmap) (e m : ℕ)
    → e < length b
    → and_entry b e m ≡ some (set b e (bit_and (get_or b e 0) m))
unfolding and_entry
and_entry_lem b e m h = rw (get_elem?-eq-get_or b e 0 h)

module _ (b : Bitmap) (e : ℕ) (inside : e < length b) where
  pub AreWords-set : (w : ℕ) → w < 2 ^ 64 → AreWords b → AreWords (set b e w)
  AreWords-set w h words i = elim (Bool-cases (e == i)) [
    | inl same ↦ ground (arith, get_or-set_self b e w 0 inside)
    | inr other ↦ ground (arith, get_or-set_ne b e i w 0, words i)
  ]

  pub claimed-set :
      (w page : ℕ)
      → claimed (set b e w) page
        ≡ (if page / 64 == e then test_bit w (63 - page % 64) else claimed b page)
  claimed-set w page = elim (Bool-cases (page / 64 == e)) [
    | inl same ↦ ground (arith, get_or-set_self b e w 0 inside)
    | inr other ↦ ground (arith, get_or-set_ne b e (page / 64) w 0)
  ]

  -- `s_bitmap[e] |= mask` claims exactly the pages of the mask.
  pub claimed_or_mask :
      (n o page : ℕ)
      → n ≤ 64
      → o < 64
      → claimed (set b e (bit_or (get_or b e 0) (convert_to_mask n o))) page
        ≡ (claimed b page || ((page / 64 == e) && in_range o n (page % 64)))
  claimed_or_mask n o page hn ho = rw claimed-set (elim (Bool-cases (page / 64 == e)) [
    | inl same ↦ ground (
      arith,
      test_bit-bit_or (63 - page % 64) (get_or b e 0) (convert_to_mask n o),
      test_bit-convert_to_mask n o (page % 64),
    )
    | inr other ↦ ground arith
  ])

  -- `s_bitmap[e] &= ~mask` frees exactly the pages of the mask.
  pub claimed_and_mask :
      (n o page : ℕ)
      → n ≤ 64
      → o < 64
      → claimed (set b e (bit_and (get_or b e 0) (not64 (convert_to_mask n o)))) page
        ≡ (claimed b page && not ((page / 64 == e) && in_range o n (page % 64)))
  claimed_and_mask n o page hn ho = rw claimed-set (elim (Bool-cases (page / 64 == e)) [
    | inl same ↦ ground (
      arith,
      test_bit-bit_and (63 - page % 64) (get_or b e 0) (not64 (convert_to_mask n o)),
      test_bit_complement (63 - page % 64) 64 (convert_to_mask n o),
      convert_to_mask-lt n o,
      test_bit-convert_to_mask n o (page % 64),
    )
    | inr other ↦ ground arith
  ])
