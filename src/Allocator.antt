-- ===== src/Allocator.antt =====
-- pivos/src/memory/allocator.c: the physical page allocator, a bitmap with one bit for each page,
-- the first page of an entry in its most significant bit.
--
-- `Allocator` holds the file's three static variables, and `bitmap` is the array behind
-- `s_bitmap`. An access outside that array, which C would make in some other memory, is the
-- outcome `none` of the `Option` monad; `Allocator.Multiple`, `Allocator.Page` and
-- `Allocator.Search` show when it does not happen. `ASSERT` is empty in a release build, which is
-- the build that is modelled.
pub mod Mask
mod Tests
pub mod Entry
pub mod Multiple
pub mod Free
pub mod Valid
pub mod Range
pub mod Address
pub mod Init
pub mod Page
pub mod Sequence
pub mod Search
use pi_vos.Prelude.{
  ℕ, zero, suc, ◌+◌, ◌-◌, ◌*◌, ◌/◌, ◌%◌, ◌^◌, min, bit_and, bit_or, Option, none, some, List, ◌==◌,
  ltb, if◌then◌else◌, get_elem?, set, replicate,
}
use pi_vos.Word.{u32, u64, sub32, not64, shl64, shr, test_bit}
use pi_vos.Word.{align_up64, strip_kernel_space}

-- `PAGES_PER_ENTRY`, `PAGE_FULL` and `NULL`
abbrev pub pages_per_entry : ℕ
pages_per_entry = 64

abbrev pub page_full : ℕ
page_full = 2 ^ 64 - 1

abbrev pub null : ℕ
null = 0

pub record Allocator : Type 0 where
  pub bitmap : List ℕ
  pub bitmap_addr : ℕ
  pub entry_count : ℕ
  pub page_size : ℕ

abbrev pub Bitmap : Type 0
Bitmap = List ℕ

infixl 5 ◌>>=◌
abbrev pub ◌>>=◌ : {A B : Type 0} → Option A → (A → Option B) → Option B
none >>= k = none
some a >>= k = k a

unfoldable pub convert_to_mask : ℕ → ℕ → ℕ
convert_to_mask number offset = shr (shl64 page_full (sub32 pages_per_entry number)) offset

unfoldable pub get_page_number : Allocator → ℕ → ℕ
get_page_number a addr = u32 (strip_kernel_space addr / a.page_size)

unfoldable pub get_addres : Allocator → ℕ → ℕ
get_addres a page_number = u64 (page_number * a.page_size)

-- `s_bitmap[entry] |= mask` and `s_bitmap[entry] &= mask`
unfoldable pub or_entry : Bitmap → ℕ → ℕ → Option Bitmap
or_entry b entry mask = do word ← get_elem? b entry; some (set b entry (bit_or word mask))

unfoldable pub and_entry : Bitmap → ℕ → ℕ → Option Bitmap
and_entry b entry mask = do word ← get_elem? b entry; some (set b entry (bit_and word mask))

abbrev pub with_bitmap : Allocator → Bitmap → Option Allocator
with_bitmap a b = some (record a { bitmap = b })

unfoldable pub claim_specific_page : Allocator → ℕ → Option Allocator
claim_specific_page a page_number = do
  let mask = convert_to_mask 1 (page_number % pages_per_entry)
  b ← or_entry a.bitmap (page_number / pages_per_entry) mask
  with_bitmap a b

unfoldable pub free_specific_page : Allocator → ℕ → Option Allocator
free_specific_page a page_number = do
  let mask = not64 (convert_to_mask 1 (page_number % pages_per_entry))
  b ← and_entry a.bitmap (page_number / pages_per_entry) mask
  with_bitmap a b

-- The `while (count > 0)` loop of `claim_multiple_pages`. Each round takes at least one page, so
-- `count` rounds of fuel are enough.
unfoldable pub claim_loop : ℕ → Bitmap → ℕ → ℕ → ℕ → ℕ → Option Bitmap
claim_loop zero b entry offset pages_to_claim count = if ltb 0 count then none else some b
claim_loop (suc fuel) b entry offset pages_to_claim count =
    let round = or_entry b entry (convert_to_mask pages_to_claim offset) >>= λ b'.
    let left = sub32 count pages_to_claim in
    claim_loop fuel b' (u32 (entry + 1)) 0 (min pages_per_entry left) left in
    if ltb 0 count then round else some b

unfoldable pub claim_multiple_pages : Allocator → ℕ → ℕ → Option Allocator
claim_multiple_pages a page_number count = do
  let entry = page_number / pages_per_entry
  let offset = page_number % pages_per_entry
  let pages_to_claim = min (pages_per_entry - offset) count
  b ← claim_loop count a.bitmap entry offset pages_to_claim count
  with_bitmap a b

-- The loop of `free_multiple_pages`. Unlike its twin it keeps `offset` from round to round.
unfoldable pub free_loop : ℕ → Bitmap → ℕ → ℕ → ℕ → ℕ → Option Bitmap
free_loop zero b entry offset pages_to_free count = if ltb 0 count then none else some b
free_loop (suc fuel) b entry offset pages_to_free count =
    let round = and_entry b entry (not64 (convert_to_mask pages_to_free offset)) >>= λ b'.
    let left = sub32 count pages_to_free in
    free_loop fuel b' (u32 (entry + 1)) offset (min pages_per_entry left) left in
    if ltb 0 count then round else some b

unfoldable pub free_multiple_pages : Allocator → ℕ → ℕ → Option Allocator
free_multiple_pages a page_number count = do
  let entry = page_number / pages_per_entry
  let offset = page_number % pages_per_entry
  let pages_to_free = min (pages_per_entry - offset) count
  b ← free_loop count a.bitmap entry offset pages_to_free count
  with_bitmap a b

-- The number of pages of `[from, to)`; an empty range counts as one page.
unfoldable pub range_pages : ℕ → ℕ → ℕ
range_pages from_page to_page =
    let pages = sub32 to_page from_page in if pages == 0 then pages + 1 else pages

unfoldable pub claim_range : Allocator → ℕ → ℕ → Option Allocator
claim_range a from to =
    let from_page = get_page_number a from in
    claim_multiple_pages a from_page (range_pages from_page (get_page_number a to))

unfoldable pub free_range : Allocator → ℕ → ℕ → Option Allocator
free_range a from to =
    let from_page = get_page_number a from in
    free_multiple_pages a from_page (range_pages from_page (get_page_number a to))

unfoldable pub free_page : Allocator → ℕ → Option Allocator
free_page a addr = free_specific_page a (get_page_number a addr)

unfoldable pub free_pages : Allocator → ℕ → ℕ → Option Allocator
free_pages a addr count = free_multiple_pages a (get_page_number a addr) count

-- `byteset` leaves the entries zero, whatever the memory held before.
unfoldable pub init : ℕ → ℕ → ℕ → Option Allocator
init addr number_of_pages page_size =
    let count = number_of_pages / pages_per_entry in
    let bitmap_end = u64 (addr + count * 8) in
    claim_range
      (record {
        bitmap = replicate count 0;
        bitmap_addr = addr;
        entry_count = count;
        page_size = page_size;
      })
      addr (align_up64 bitmap_end page_size)

-- `__builtin_clzll`: the zeros above the highest one among the lowest `k` bits
unfoldable pub clz : ℕ → ℕ → ℕ
clz zero w = 0
clz (suc k) w = if test_bit w k then 0 else suc (clz k w)

-- The `for` loop of `claim_page` from `entry_idx` on, with the rounds that are left.
unfoldable pub claim_page_loop : ℕ → Allocator → ℕ → Option (ℕ × Allocator)
claim_page_loop zero a entry_idx = some (null, a)
claim_page_loop (suc left) a entry_idx =
    let next = claim_page_loop left a (entry_idx + 1) in
    get_elem? a.bitmap entry_idx >>= λ current_entry.
    if current_entry == page_full
    then next
    else (let page_number = u32 (entry_idx * pages_per_entry + clz 64 (not64 current_entry)) in
        claim_specific_page a page_number >>= λ a'. some (u64 (page_number * a.page_size), a'))

unfoldable pub claim_page : Allocator → Option (ℕ × Allocator)
claim_page a = claim_page_loop a.entry_count a 0
