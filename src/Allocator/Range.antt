-- ===== src/Allocator/Range.antt =====
-- What the range operations of allocator.c do to the pages: `claim_multiple_pages`,
-- `free_multiple_pages`, `claim_range`, `free_range`, `free_page`, `free_pages`.
use native.Mathlib.Nat.{le_refl}
use pi_vos.Prelude.{
  ℕ, ◌+◌, ◌-◌, ◌*◌, ◌/◌, ◌%◌, ◌≤◌, ◌<◌, ◌≡◌, refl, arith, some, length, bit_and, set, get_or, ◌⊎◌,
  inl, inr, length-set, min, bit_or,
}
use pi_vos.Word.{not64}
use pi_vos.Word.Range.{bit_and-lt, bit_or-lt}
use pi_vos.Allocator.Mask.{convert_to_mask-lt}
use pi_vos.Allocator.{
  Bitmap, Allocator, convert_to_mask, claim_multiple_pages, free_multiple_pages, free_specific_page,
  claim_specific_page,
}
use pi_vos.Allocator.Entry.{
  claimed, AreWords-set, or_entry_lem, and_entry_lem, claimed_or_mask, claimed_and_mask,
}
use pi_vos.Allocator.Multiple.{InLoop, claim_mark, free_mark, claim_loop-IsMarked}
use pi_vos.Allocator.Free.{
  free_loop_aligned-IsMarked, free_loop_single-IsMarked, free_loop-IsSpared,
}
use pi_vos.Allocator.Valid.{IsValid, Marks, is_claimed, page_count, Marks-of_IsMarked}

module _ {a : Allocator} (v : IsValid a) (page count : ℕ) (fits : page + count ≤ page_count a) where
  -- the variables of the loop at its first round
  entry_loop : InLoop a.bitmap (page / 64) (page % 64) (min (64 - page % 64) count) count
  entry_loop = record {
    words = v.words;
    offset_in = omega arith;
    chunk = refl;
    fits = omega (arith, v.size);
    small = omega (arith, v.size, v.small);
  }

  first_page : page / 64 * 64 + page % 64 ≡ page
  first_page = omega arith

  -- `claim_multiple_pages` marks the `count` pages from `page` on as claimed, changes the bit of
  -- no other page, and keeps the invariant, for every range of pages that the bitmap has.
  pub claim_multiple_pages-Marks :
      Marks (claim_mark page count) a (claim_multiple_pages a page count)
  unfolding claim_multiple_pages
  claim_multiple_pages-Marks =
      rw first_page at (Marks-of_IsMarked v (claim_loop-IsMarked count entry_loop (le_refl count)))

  -- `free_multiple_pages` frees the `count` pages from `page` on, changes the bit of no other page,
  -- and keeps the invariant, where the range starts an entry of the bitmap or stays within one.
  pub free_multiple_pages-Marks :
      (page % 64 ≡ 0) ⊎ (page % 64 + count ≤ 64)
      → Marks (free_mark page count) a (free_multiple_pages a page count)
  unfolding free_multiple_pages
  free_multiple_pages-Marks (inl aligned) =
      let start : page / 64 * 64 + 0 ≡ page = omega arith in
      rw aligned (
        rw start at (
          Marks-of_IsMarked v
            (free_loop_aligned-IsMarked count (rw aligned at entry_loop) (le_refl count))))
  free_multiple_pages-Marks (inr within) =
      rw first_page at
        (Marks-of_IsMarked v (free_loop_single-IsMarked count entry_loop within (le_refl count)))

  -- `free_multiple_pages` returns, and leaves each page that stands in its entry before the
  -- position of `page` as it was, the pages of the range among them.
  pub free_multiple_pages_spares :
      (b : Bitmap) × (free_multiple_pages a page count ≡ some (record a { bitmap = b }))
      × ((other : ℕ) → other % 64 < page % 64 → claimed b other ≡ is_claimed a other)
  unfolding free_multiple_pages
  free_multiple_pages_spares =
      let s = free_loop-IsSpared count (page % 64) entry_loop (omega arith) (le_refl count) in
      (s.out, (rw s.returns refl), s.spared)

module _ {a : Allocator} (v : IsValid a) (page : ℕ) (inside : page < page_count a) where
  in_entry : page / 64 < length a.bitmap
  in_entry = omega (arith, v.size)

  -- `claim_specific_page` claims that page and no other.
  pub claim_specific_page-Marks : Marks (claim_mark page 1) a (claim_specific_page a page)
  unfolding claim_specific_page
  claim_specific_page-Marks =
      let mask = convert_to_mask 1 (page % 64) in
      let word = get_or a.bitmap (page / 64) 0 in
      Marks-of_IsMarked v (record {
        out = set a.bitmap (page / 64) (bit_or word mask);
        returns = or_entry_lem a.bitmap (page / 64) mask in_entry;
        same_length = length-set a.bitmap (page / 64) (bit_or word mask);
        words =
            AreWords-set a.bitmap (page / 64) in_entry (bit_or word mask)
              (bit_or-lt 64 word mask (v.words (page / 64)) (convert_to_mask-lt 1 (page % 64)))
              v.words;
        pages = λ other.
            ground (arith, claimed_or_mask a.bitmap (page / 64) in_entry 1 (page % 64) other);
      })

  -- `free_specific_page` frees that page and no other.
  pub free_specific_page-Marks : Marks (free_mark page 1) a (free_specific_page a page)
  unfolding free_specific_page
  free_specific_page-Marks =
      let mask = convert_to_mask 1 (page % 64) in
      let word = get_or a.bitmap (page / 64) 0 in
      Marks-of_IsMarked v (record {
        out = set a.bitmap (page / 64) (bit_and word (not64 mask));
        returns = and_entry_lem a.bitmap (page / 64) (not64 mask) in_entry;
        same_length = length-set a.bitmap (page / 64) (bit_and word (not64 mask));
        words =
            AreWords-set a.bitmap (page / 64) in_entry (bit_and word (not64 mask))
              (bit_and-lt 64 word (not64 mask) (v.words (page / 64))) v.words;
        pages = λ other.
            ground (arith, claimed_and_mask a.bitmap (page / 64) in_entry 1 (page % 64) other);
      })
