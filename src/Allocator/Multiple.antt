-- ===== src/Allocator/Multiple.antt =====
-- The loop of `memory_allocator_claim_multiple_pages` over the entries of a range of pages.
use pi_vos.Prelude.{
  ℕ, zero, suc, ◌+◌, ◌-◌, ◌*◌, ◌/◌, ◌%◌, ◌^◌, ◌≤◌, ◌<◌, ◌≡◌, refl, arith, Bool, not, ◌&&◌, ◌||◌,
  ltb, ltb→lt, ◌==◌, Option, some, length, get_or, set, length-set, min, Bool-cases, inl, inr, ◌∙◌,
  bit_or,
}
use pi_vos.Word.{u32, sub32}
use pi_vos.Word.Range.{bit_or-lt}
use pi_vos.Allocator.{Bitmap, convert_to_mask, claim_loop}
use pi_vos.Allocator.Mask.{convert_to_mask-lt}
use pi_vos.Allocator.Entry.{
  claimed, in_range, AreWords, or_entry_lem, AreWords-set, claimed_or_mask,
}

-- `result` is a bitmap of the same size in which each page's bit is `mark page` of its old bit.
pub record IsMarked (mark : ℕ → Bool → Bool) (b : Bitmap) (result : Option Bitmap) : Type 0 where
  pub out : Bitmap
  pub returns : result ≡ some out
  pub same_length : length out ≡ length b
  pub words : AreWords out
  pub pages : (page : ℕ) → claimed out page ≡ mark page (claimed b page)

abbrev pub claim_mark : ℕ → ℕ → ℕ → Bool → Bool
claim_mark from count page old = old || in_range from count page

abbrev pub free_mark : ℕ → ℕ → ℕ → Bool → Bool
free_mark from count page old = old && not (in_range from count page)

-- The variables of the loops at the top of a round, all their accesses inside the bitmap.
-- `n` pages are taken next, from position `o` of entry `e` on.
pub record InLoop (b : Bitmap) (e o n count : ℕ) : Type 0 where
  pub words : AreWords b
  pub offset_in : o < 64
  pub chunk : n ≡ min (64 - o) count
  pub fits : e * 64 + o + count ≤ length b * 64
  pub small : length b ≤ 2 ^ 26

pub InLoop-next :
    {b : Bitmap} {e o n count : ℕ}
    → InLoop b e o n count
    → 0 < count
    → (w : ℕ) → w < 2 ^ 64
    → InLoop (set b e w) (u32 (e + 1)) 0 (min 64 (sub32 count n)) (sub32 count n)
InLoop-next {b} {e} {count} v h w hw = record {
  words = AreWords-set b e inside w hw v.words;
  offset_in = omega arith;
  chunk = refl;
  fits = omega (arith, v.chunk, v.fits, v.small, length-set b e w);
  small = omega (arith, v.small, length-set b e w);
}
  where
    inside : e < length b
    inside = omega (arith, v.fits)

-- The pages of the entry `e` and those of the rounds to come make up the range.
pub range_split :
    (e o n count page : ℕ)
    → o < 64
    → n ≡ min (64 - o) count
    → e < 2 ^ 26
    → count ≤ 2 ^ 32 - 1
    → (((page / 64 == e) && in_range o n (page % 64))
        || in_range (u32 (e + 1) * 64 + 0) (sub32 count n) page)
      ≡ in_range (e * 64 + o) count page
range_split e o n count page h eq small fits = ground arith

pub claim_loop-IsMarked :
    (fuel : ℕ) {b : Bitmap} {e o n count : ℕ}
    → InLoop b e o n count
    → count ≤ fuel
    → IsMarked (claim_mark (e * 64 + o) count) b (claim_loop fuel b e o n count)
unfolding claim_loop
claim_loop-IsMarked zero {b} v h = record {
  out = b;
  returns = ground arith;
  same_length = refl;
  words = v.words;
  pages = λ page. ground arith;
}
claim_loop-IsMarked (suc fuel) {b} {e} {o} {n} {count} v h = elim (Bool-cases (ltb 0 count)) [
  | inl more ↦
      let w = bit_or (get_or b e 0) (convert_to_mask n o) in
      let inside : e < length b = omega (arith, v.fits, ltb→lt 0 count more) in
      let next =
        InLoop-next v (ltb→lt 0 count more) w
          (bit_or-lt 64 _ _ (v.words e) (convert_to_mask-lt n o)) in
      let rest =
        claim_loop-IsMarked fuel next (omega (arith, v.chunk, v.offset_in, v.fits, v.small)) in
      record {
        out = rest.out;
        returns = rw (more, or_entry_lem b e (convert_to_mask n o) inside) rest.returns;
        same_length = rest.same_length ∙ length-set b e w;
        words = rest.words;
        pages = λ page.
            rest.pages page
            ∙ (rw (claimed_or_mask b e inside n o page (omega (arith, v.chunk)) v.offset_in) (
                ground
                  (arith, range_split e o n count page, v.chunk, v.offset_in, v.small, v.fits)));
      }
  | inr done ↦ record {
    out = b;
    returns = rw done refl;
    same_length = refl;
    words = v.words;
    pages = λ page. ground arith;
  }
]
