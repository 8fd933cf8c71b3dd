-- ===== src/Allocator/Mask.antt =====
-- `memory_allocator_convert_to_mask`: which bits a mask has.
use pi_vos.Prelude.{
  ℕ, ◌+◌, ◌-◌, ◌*◌, ◌^◌, ◌≤◌, ◌<◌, ◌≡◌, arith, ◌&&◌, ltb, leb, leb→le, Bool-cases, inl, inr, ◌∙◌,
}
use pi_vos.Word.{test_bit, sub32, shl64}
use pi_vos.Word.Bits.{test_bit_ones, test_bit_shift_low, test_bit_shift_high}
use pi_vos.Word.Range.{test_bit_shift_right, test_bit_truncate, test_bit_of_lt}
use pi_vos.Allocator.{convert_to_mask, pages_per_entry, page_full}

pub convert_to_mask-lt : (n o : ℕ) → convert_to_mask n o < 2 ^ 64
unfolding convert_to_mask
convert_to_mask-lt n o = omega arith

-- the bits of `~0ULL << m`
test_bit_full_shift : (m j : ℕ) → j < 64 → test_bit (shl64 page_full m) j ≡ leb m j
test_bit_full_shift m j h =
    test_bit_truncate j 64 (page_full * 2 ^ m) h ∙ (elim (Bool-cases (leb m j)) [
      | inl above ↦
          ground
            (arith, test_bit_shift_high j m page_full (leb→le m j above), test_bit_ones (j - m) 64)
      | inr below ↦ ground (arith, test_bit_shift_low j m page_full)
    ])

-- `page` counts from the most significant bit, as the pages of an entry do.
pub test_bit-convert_to_mask :
    (n o page : ℕ)
    → n ≤ 64
    → o < 64
    → page < 64
    → test_bit (convert_to_mask n o) (63 - page) ≡ (leb o page && ltb page (o + n))
unfolding convert_to_mask
test_bit-convert_to_mask n o page hn ho hp =
    let e : sub32 pages_per_entry n ≡ 64 - n = omega arith in
    rw (e, test_bit_shift_right o (63 - page) (shl64 page_full (64 - n)))
      (elim (Bool-cases (leb o page)) [
        | inl within ↦ ground (arith, test_bit_full_shift (64 - n) (o + (63 - page)))
        | inr past ↦
            ground
              (arith, test_bit_of_lt 64 (o + (63 - page)) (shl64 page_full (64 - n)) (omega arith))
      ])
