-- ===== src/Allocator/Free.antt =====
-- The loop of `memory_allocator_free_multiple_pages`. It keeps `offset` from round to round, so it
-- frees the range that it is given only where the range starts an entry or stays within one.
use pi_vos.Prelude.{
  ℕ, zero, suc, ◌+◌, ◌*◌, ◌/◌, ◌%◌, ◌≤◌, ◌<◌, ◌≡◌, refl, arith, Bool, true, not, ◌&&◌, ltb, ◌==◌,
  Option, some, length, get_or, set, length-set, min, ◌∙◌, bit_and,
}
use pi_vos.Word.{u32, sub32, not64}
use pi_vos.Word.Range.{bit_and-lt}
use pi_vos.Allocator.{Bitmap, convert_to_mask, free_loop}
use pi_vos.Allocator.Entry.{claimed, in_range, AreWords, and_entry_lem, claimed_and_mask}
use pi_vos.Allocator.Multiple.{IsMarked, free_mark, InLoop, InLoop-next, range_split}

abbrev freed_entry : Bitmap → ℕ → ℕ → ℕ → Bitmap
freed_entry b e o n = set b e (bit_and (get_or b e 0) (not64 (convert_to_mask n o)))

free_loop-zero : (fuel : ℕ) (b : Bitmap) (e o n : ℕ) → free_loop fuel b e o n 0 ≡ some b
unfolding free_loop
free_loop-zero zero b e o n = refl
free_loop-zero (suc fuel) b e o n = refl

-- One round.
free_loop-suc :
    (fuel : ℕ) (b : Bitmap) (e n count o : ℕ)
    → e < length b
    → 0 < count
    → free_loop (suc fuel) b e o n count
      ≡ free_loop fuel
          (freed_entry b e o n)
          (u32 (e + 1))
          o
          (min 64 (sub32 count n))
          (sub32 count n)
unfolding free_loop
free_loop-suc fuel b e n count o inside h =
    let more : ltb 0 count ≡ true = ground arith in
    rw (more, and_entry_lem b e (not64 (convert_to_mask n o)) inside)

module _ {b : Bitmap} {e n : ℕ} {result : Option Bitmap} where
  -- A bitmap reached after the entry `e` has been freed.
  IsMarked-of_freed :
      (o : ℕ) {later mark : ℕ → Bool → Bool}
      → e < length b
      → n ≤ 64
      → o < 64
      → ((page : ℕ) (old : Bool)
          → later page (old && not ((page / 64 == e) && in_range o n (page % 64))) ≡ mark page old)
      → IsMarked later (freed_entry b e o n) result
      → IsMarked mark b result
  IsMarked-of_freed o inside hn ho same rest = record {
    out = rest.out;
    returns = rest.returns;
    same_length = rest.same_length ∙ length-set b e _;
    words = rest.words;
    pages = λ page.
        rest.pages page
        ∙ (rw (claimed_and_mask b e inside n o page hn ho) (same page (claimed b page)));
  }

IsMarked-refl :
    {mark : ℕ → Bool → Bool} {b : Bitmap}
    → AreWords b
    → ((page : ℕ) (old : Bool) → old ≡ mark page old)
    → IsMarked mark b (some b)
IsMarked-refl {b} words same = record {
  out = b;
  returns = refl;
  same_length = refl;
  words = words;
  pages = λ page. same page (claimed b page);
}

-- A range that starts an entry is freed, and nothing else.
pub free_loop_aligned-IsMarked :
    (fuel : ℕ) {b : Bitmap} {e n count : ℕ}
    → InLoop b e 0 n count
    → count ≤ fuel
    → IsMarked (free_mark (e * 64 + 0) count) b (free_loop fuel b e 0 n count)
free_loop_aligned-IsMarked fuel {b} {e} {n} {count = zero} v h =
    rw (free_loop-zero fuel b e 0 n) (IsMarked-refl v.words (λ page old. ground arith))
free_loop_aligned-IsMarked zero {count = suc c} v h = absurd (omega arith)
free_loop_aligned-IsMarked (suc fuel) {b} {e} {n} {count = suc c} v h =
    let inside : e < length b = omega (arith, v.fits) in
    let next =
      InLoop-next v (omega arith) _ (bit_and-lt 64 _ (not64 (convert_to_mask n 0)) (v.words e)) in
    rw (free_loop-suc fuel b e n (suc c) 0 inside (omega arith)) (
      IsMarked-of_freed 0 inside (omega (arith, v.chunk)) (omega arith)
        (λ page old. ground (arith, range_split e 0 n (suc c) page, v.chunk, v.fits, v.small))
        (free_loop_aligned-IsMarked fuel next (omega (arith, v.chunk, v.fits, v.small))))

-- So is a range within one entry.
pub free_loop_single-IsMarked :
    (fuel : ℕ) {b : Bitmap} {e o n count : ℕ}
    → InLoop b e o n count
    → o + count ≤ 64
    → count ≤ fuel
    → IsMarked (free_mark (e * 64 + o) count) b (free_loop fuel b e o n count)
free_loop_single-IsMarked fuel {b} {e} {o} {n} {count = zero} v within h =
    rw (free_loop-zero fuel b e o n) (IsMarked-refl v.words (λ page old. ground arith))
free_loop_single-IsMarked zero {count = suc c} v within h = absurd (omega arith)
free_loop_single-IsMarked (suc fuel) {b} {e} {o} {n} {count = suc c} v within h =
    let inside : e < length b = omega (arith, v.fits) in
    let next =
      InLoop-next v (omega arith) _ (bit_and-lt 64 _ (not64 (convert_to_mask n o)) (v.words e)) in
    let finished : sub32 (suc c) n ≡ 0 = omega (arith, v.chunk, v.fits, v.small) in
    rw (free_loop-suc fuel b e n (suc c) o inside (omega arith), finished, free_loop-zero)
      (IsMarked-of_freed o inside (omega (arith, v.chunk)) v.offset_in
        (λ page old. ground (arith, range_split e o n (suc c) page, v.chunk, v.fits, v.small))
        (IsMarked-refl {mark = λ page old. old} next.words (λ page old. refl)))

-- `result` agrees with `b` on every page that stands before position `o` of its entry.
pub record IsSpared (o : ℕ) (b : Bitmap) (result : Option Bitmap) : Type 0 where
  pub out : Bitmap
  pub returns : result ≡ some out
  pub spared : (page : ℕ) → page % 64 < o → claimed out page ≡ claimed b page

-- The loop passes over those pages in every entry, those of the range among them.
pub free_loop-IsSpared :
    (fuel : ℕ) {b : Bitmap} {e s n count : ℕ} (o : ℕ)
    → InLoop b e s n count
    → o < 64
    → count ≤ fuel
    → IsSpared o b (free_loop fuel b e o n count)
free_loop-IsSpared fuel {b} {e} {n} {count = zero} o v ho h =
    rw (free_loop-zero fuel b e o n) (record { out = b; returns = refl; spared = λ page q. refl })
free_loop-IsSpared zero {count = suc c} o v ho h = absurd (omega arith)
free_loop-IsSpared (suc fuel) {b} {e} {s} {n} {count = suc c} o v ho h =
    let inside : e < length b = omega (arith, v.fits) in
    let next =
      InLoop-next v (omega arith) _ (bit_and-lt 64 _ (not64 (convert_to_mask n o)) (v.words e)) in
    let rest =
      free_loop-IsSpared fuel o next ho (omega (arith, v.chunk, v.offset_in, v.fits, v.small)) in
    rw (free_loop-suc fuel b e n (suc c) o inside (omega arith)) (record {
      out = rest.out;
      returns = rest.returns;
      spared = λ page q.
          rest.spared page q
          ∙ (rw (claimed_and_mask b e inside n o page (omega (arith, v.chunk)) ho) (ground arith));
    })
