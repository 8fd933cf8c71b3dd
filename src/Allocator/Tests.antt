-- ===== src/Allocator/Tests.antt =====
-- Runs of the page allocator on a bitmap of two entries.
use pi_vos.Prelude.{
  ℕ, zero, suc, ◌+◌, ◌-◌, ◌*◌, ◌^◌, ◌≤◌, ◌<◌, ◌≡◌, refl, arith, some, [], ◌∷◌, inl, inr, ◌⊎◌, true,
  false, max, ◌/◌, ◌%◌,
}
use pi_vos.Word.Range.{test_bit_of_lt}
use pi_vos.Allocator.{
  Allocator, Bitmap, null, claim_page, free_multiple_pages, claim_range, free_range, free_pages,
  init,
}
use pi_vos.Allocator.Entry.{AreWords, claimed, in_range}
use pi_vos.Allocator.Multiple.{claim_mark, free_mark}
use pi_vos.Allocator.Valid.{IsValid, Marks, is_claimed, page_count}
use pi_vos.Allocator.Range.{free_multiple_pages_spares}
use pi_vos.Allocator.Address.{
  span_pages, page_addr, claim_range-Marks, free_range-claim_range, free_pages-Marks,
}
use pi_vos.Allocator.Init.{init-claimed, pages_for}
use pi_vos.Allocator.Page.{ClaimsFirst, AllClaimed, claim_page_lem}
use pi_vos.Allocator.Search.{claim_pages}
use pi_vos.Allocator.Search.Sound.{IsBlocked}
use pi_vos.Allocator.Search.Total.{ClaimsRun, claim_pages_lem, claim_pages_small}

-- Pages 0 to 3 are claimed.
abbrev two_entries : Allocator
two_entries = record {
  bitmap = 0xF000000000000000 ∷ 0 ∷ [];
  bitmap_addr = 0;
  entry_count = 2;
  page_size = 4096;
}

two_entries-words : AreWords two_entries.bitmap
two_entries-words zero = omega arith
two_entries-words (suc zero) = omega arith
two_entries-words (suc (suc i)) = omega arith

two_entries-IsValid : IsValid two_entries
two_entries-IsValid = record {
  size = refl;
  words = two_entries-words;
  small = omega arith;
  page_pos = omega arith;
  span = omega arith;
}

upper_free :
    (page : ℕ) → in_range 64 (span_pages 64 70) page ≡ true → is_claimed two_entries page ≡ false
upper_free page h = rw entry (test_bit_of_lt 0 (63 - page % 64) 0 (omega arith) (omega arith))
  where
    entry : page / 64 ≡ 1
    entry = ground (arith, h)

claim_pages_lem_example :
    ((claim_pages two_entries 33 (2 ^ 2) ≡ some (null, two_entries))
      × ((t : ℕ)
          → t * 2 ^ 2 + 33 ≤ page_count two_entries
          → IsBlocked two_entries.bitmap 33 (t * 2 ^ 2)))
    ⊎ ClaimsRun two_entries 33 (2 ^ 2) (claim_pages two_entries 33 (2 ^ 2))
claim_pages_lem_example =
    claim_pages_lem {a = two_entries} 33 2 two_entries-IsValid (omega arith) refl (omega arith)
      (omega arith)

claim_pages_small_example :
    (b : Bitmap) × (claim_pages two_entries 4 1 ≡ some (0, record two_entries { bitmap = b }))
claim_pages_small_example =
    claim_pages_small {a = two_entries} 4 1 two_entries-IsValid (omega arith) (omega arith)
      (omega arith)

claim_page_lem_example :
    ((claim_page two_entries ≡ some (null, two_entries))
      × AllClaimed two_entries (page_count two_entries))
    ⊎ ClaimsFirst two_entries (claim_page two_entries)
claim_page_lem_example = claim_page_lem {a = two_entries} two_entries-IsValid

free_multiple_pages_spares_example :
    (b : Bitmap) × (free_multiple_pages two_entries 60 10
      ≡ some (record two_entries { bitmap = b }))
    × ((other : ℕ) → other % 64 < 60 % 64 → claimed b other ≡ is_claimed two_entries other)
free_multiple_pages_spares_example =
    free_multiple_pages_spares {a = two_entries} two_entries-IsValid 60 10 (omega arith)

claim_range-Marks_example :
    Marks
      (claim_mark 60 (span_pages 60 70))
      two_entries
      (claim_range two_entries (page_addr two_entries 60 0) (page_addr two_entries 70 1))
claim_range-Marks_example =
    claim_range-Marks {a = two_entries} two_entries-IsValid 60 70 0 1 (omega arith) (omega arith)
      (omega arith, omega arith) (omega arith, omega arith)

free_range-claim_range_example :
    (b c : Allocator) × (claim_range two_entries
        (page_addr two_entries 64 0)
        (page_addr two_entries 70 1)
      ≡ some b)
    × (free_range b (page_addr two_entries 64 0) (page_addr two_entries 70 1) ≡ some c)
    × ((page : ℕ) → is_claimed c page ≡ is_claimed two_entries page)
free_range-claim_range_example =
    free_range-claim_range {a = two_entries} 64 70 0 1 two_entries-IsValid (omega arith)
      (omega arith) (omega arith, omega arith) (omega arith, omega arith) (inl (omega arith))
      upper_free

free_pages-Marks_example :
    Marks (free_mark 2 10) two_entries (free_pages two_entries (page_addr two_entries 2 0) 10)
free_pages-Marks_example =
    free_pages-Marks {a = two_entries} 2 0 10 two_entries-IsValid (omega arith)
      (omega arith, omega arith) (inr (omega arith))

init-claimed_example :
    (a : Allocator) × (init (3 * 2 ^ 12 + 0 * 2 ^ 48) 128 (2 ^ 12) ≡ some a)
    × IsValid a
    × (a.entry_count ≡ 128 / 64)
    × (a.page_size ≡ 2 ^ 12)
    × ((page : ℕ) → is_claimed a page ≡ in_range 3 (max 1 (pages_for (128 / 64 * 8) 12)) page)
init-claimed_example =
    init-claimed 3 0 128 12 (omega arith) (omega arith) (omega arith) (omega arith) (omega arith)
