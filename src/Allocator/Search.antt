-- ===== src/Allocator/Search.antt =====
-- `memory_allocator_claim_pages`: the search for `number` free pages at a multiple of `align`.
--
-- `current_entry` is declared `uint32_t`, so a read entry loses its upper half, the bits of its
-- first 32 pages. The loop runs on fuel; `Total` shows that the fuel it gets is enough.
pub mod Bounds
pub mod Sound
pub mod Total
use pi_vos.Prelude.{
  ℕ, zero, suc, ◌+◌, ◌-◌, ◌*◌, ◌/◌, ◌%◌, ◌≤◌, ◌<◌, min, bit_and, Bool, ◌&&◌, Option, none, some,
  List, ◌==◌, ltb, if◌then◌else◌, get_elem?,
}
use pi_vos.Word.{u32, sub32, align_up32}
use pi_vos.Allocator.{
  Allocator, Bitmap, convert_to_mask, claim_page, claim_multiple_pages, get_addres, pages_per_entry,
  null, ◌>>=◌,
}

-- How the `while` loop ends: with enough pages from `page` on, at the end of the bitmap, with a
-- read outside it, or not within the fuel.
pub data Search : Type 0 where
  found : ℕ → Search
  exhausted fault out_of_fuel : Search

-- `current_page += checked_pages > align ? ALIGN_UP(checked_pages, align) : align`
unfoldable pub skip : ℕ → ℕ → ℕ
skip checked_pages align = if ltb align checked_pages then align_up32 checked_pages align else align

-- What follows the loop's end.
abbrev pub finish : ℕ → ℕ → Search
finish current_page pages_left = if pages_left == 0 then found current_page else exhausted

abbrev pub running : ℕ → ℕ → ℕ → Bool
running entry_count pages_left entry_idx = ltb 0 pages_left && ltb entry_idx entry_count

module _ (b : Bitmap) (entry_count number align : ℕ) where
  unfoldable pub search_loop : ℕ → ℕ → ℕ → ℕ → ℕ → Search
  search_loop zero current_page offset pages_left entry_idx =
      if running entry_count pages_left entry_idx
      then out_of_fuel
      else finish current_page pages_left
  search_loop (suc fuel) current_page offset pages_left entry_idx =
      let pages_to_claim = min (pages_per_entry - offset) pages_left in
      let current_mask = convert_to_mask pages_to_claim offset in
      let free =
        search_loop fuel current_page 0 (sub32 pages_left pages_to_claim) (u32 (entry_idx + 1)) in
      let next_page = u32 (current_page + skip (sub32 number pages_left) align) in
      let taken =
        search_loop fuel next_page (next_page % pages_per_entry) number
          (next_page / pages_per_entry) in
      let round : Search = elim (get_elem? b entry_idx) [
        | none ↦ fault
        | some word ↦
            (let current_entry = u32 word in
              if bit_and current_entry current_mask == 0 then free else taken)
      ] in
      if running entry_count pages_left entry_idx then round else finish current_page pages_left

-- After the loop; `none` is an access outside the bitmap or too little fuel.
unfoldable pub claim_found : Allocator → ℕ → Search → Option (ℕ × Allocator)
claim_found a number (found page) =
    claim_multiple_pages a page number >>= λ a'. some (get_addres a page, a')
claim_found a number exhausted = some (null, a)
claim_found a number fault = none
claim_found a number out_of_fuel = none

-- the fuel that `claim_pages` gives its loop
abbrev pub search_fuel : ℕ → ℕ
search_fuel entry_count = (entry_count * 64 + 1) * (entry_count + 1)

unfoldable pub claim_pages : Allocator → ℕ → ℕ → Option (ℕ × Allocator)
claim_pages a number align =
    if (number == 1) && (align == 1)
    then claim_page a
    else claim_found a number
        (search_loop a.bitmap a.entry_count number align (search_fuel a.entry_count) 0 0 number 0)
