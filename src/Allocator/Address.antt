-- ===== src/Allocator/Address.antt =====
-- The address interface of allocator.c: `claim_range`, `free_range`, `free_page` and `free_pages`.
-- An address is that of a page, physical or with a tag in its upper 16 bits as the
-- kernel's own pointers have.
use pi_vos.Prelude.{ℕ, ◌+◌, ◌-◌, ◌*◌, ◌%◌, ◌^◌, ◌≤◌, ◌<◌, ◌≡◌, arith, true, false, some, ◌⊎◌, max}
use pi_vos.Allocator.{
  Allocator, claim_range, free_range, free_page, free_pages, range_pages, get_page_number,
}
use pi_vos.Allocator.Entry.{in_range}
use pi_vos.Allocator.Multiple.{claim_mark, free_mark}
use pi_vos.Allocator.Valid.{IsValid, Marks, is_claimed, page_count, get_page_number_lem}
use pi_vos.Allocator.Range.{
  claim_multiple_pages-Marks, free_multiple_pages-Marks, free_specific_page-Marks,
}

range_pages_lem : (i j : ℕ) → i ≤ j → j < 2 ^ 32 → range_pages i j ≡ max 1 (j - i)
unfolding range_pages
range_pages_lem i j h l = ground arith

-- the address of page `i`
abbrev pub page_addr : Allocator → ℕ → ℕ → ℕ
page_addr a i tag = i * a.page_size + tag * 2 ^ 48

-- a page number whose address has no more than 48 bits
abbrev pub IsAddressable : Allocator → ℕ → Type 0
IsAddressable a i = (i < 2 ^ 32) × (i * a.page_size < 2 ^ 48)

-- how many pages the range from page `i` to page `j` counts
abbrev pub span_pages : ℕ → ℕ → ℕ
span_pages i j = max 1 (j - i)

module _ {a : Allocator} (v : IsValid a) (i j s t : ℕ) (ordered : i ≤ j)
    (fits : i + span_pages i j ≤ page_count a) (low : IsAddressable a i)
    (high : IsAddressable a j) where
  from_page : get_page_number a (page_addr a i s) ≡ i
  from_page = get_page_number_lem a i s v.page_pos low.0 low.1

  pages_of_range :
      range_pages (get_page_number a (page_addr a i s)) (get_page_number a (page_addr a j t))
      ≡ span_pages i j
  pages_of_range =
      rw (from_page, get_page_number_lem a j t v.page_pos high.0 high.1)
        (range_pages_lem i j ordered high.0)

  -- `claim_range` of the addresses of pages `i` and `j` claims the pages from `i` to `j - 1`, page
  -- `i` alone where the two are equal, and no other.
  pub claim_range-Marks :
      Marks (claim_mark i (span_pages i j)) a (claim_range a (page_addr a i s) (page_addr a j t))
  unfolding claim_range
  claim_range-Marks =
      rw (pages_of_range, from_page) (claim_multiple_pages-Marks v i (span_pages i j) fits)

  -- `free_range` frees the same pages, where they start an entry or stay within one.
  pub free_range-Marks :
      (i % 64 ≡ 0) ⊎ (i % 64 + span_pages i j ≤ 64)
      → Marks (free_mark i (span_pages i j)) a (free_range a (page_addr a i s) (page_addr a j t))
  unfolding free_range
  free_range-Marks single =
      rw (pages_of_range, from_page) (free_multiple_pages-Marks v i (span_pages i j) fits single)

-- Claiming a range of free pages and freeing it again gives every page its old bit back, where
-- the range starts an entry or stays within one; neither call faults.
pub free_range-claim_range :
    {a : Allocator} (i j s t : ℕ)
    → IsValid a
    → i ≤ j
    → i + span_pages i j ≤ page_count a
    → IsAddressable a i
    → IsAddressable a j
    → (i % 64 ≡ 0) ⊎ (i % 64 + span_pages i j ≤ 64)
    → ((page : ℕ) → in_range i (span_pages i j) page ≡ true → is_claimed a page ≡ false)
    → (b c : Allocator) × (claim_range a (page_addr a i s) (page_addr a j t) ≡ some b)
      × (free_range b (page_addr a i s) (page_addr a j t) ≡ some c)
      × ((page : ℕ) → is_claimed c page ≡ is_claimed a page)
free_range-claim_range {a} i j s t v ordered fits low high single free =
    let there = claim_range-Marks v i j s t ordered fits low high in
    let back = free_range-Marks there.valid i j s t ordered fits low high single in
    (
      record a { bitmap = there.out },
      record a { bitmap = back.out },
      there.returns,
      back.returns,
      λ page. ground (arith, back.pages page, there.pages page, free page),
    )

-- `free_page` of the address of a page frees that page and no other.
pub free_page-Marks :
    {a : Allocator} (i s : ℕ)
    → IsValid a
    → i < page_count a
    → IsAddressable a i
    → Marks (free_mark i 1) a (free_page a (page_addr a i s))
unfolding free_page
free_page-Marks {a} i s v inside low =
    rw (get_page_number_lem a i s v.page_pos low.0 low.1) (free_specific_page-Marks v i inside)

-- `free_pages` of the address of a page frees `count` pages from it on, where they start an entry
-- or stay within one, and no other.
pub free_pages-Marks :
    {a : Allocator} (i s count : ℕ)
    → IsValid a
    → i + count ≤ page_count a
    → IsAddressable a i
    → (i % 64 ≡ 0) ⊎ (i % 64 + count ≤ 64)
    → Marks (free_mark i count) a (free_pages a (page_addr a i s) count)
unfolding free_pages
free_pages-Marks {a} i s count v fits low single =
    rw (get_page_number_lem a i s v.page_pos low.0 low.1)
      (free_multiple_pages-Marks v i count fits single)
