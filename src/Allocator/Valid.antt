-- ===== src/Allocator/Valid.antt =====
-- The allocator's invariant, what an operation does to the pages, and page numbers of addresses.
use native.Mathlib.Nat.{mul-div_cancel}
use pi_vos.Prelude.{
  ℕ, ◌+◌, ◌*◌, ◌%◌, ◌^◌, ◌≤◌, ◌<◌, ◌≡◌, refl, arith, Bool, Option, some, length, ◌∙◌,
}
use pi_vos.Word.{strip_kernel_space}
use pi_vos.Word.Bits.{bit_and_low_mask}
use pi_vos.Allocator.{Bitmap, Allocator, get_page_number, with_bitmap, ◌>>=◌}
use pi_vos.Allocator.Entry.{claimed, AreWords}
use pi_vos.Allocator.Multiple.{IsMarked}

-- The bitmap has `entry_count` entries, page numbers fit 32 bits and addresses 48 bits.
pub record IsValid (a : Allocator) : Type 0 where
  pub size : length a.bitmap ≡ a.entry_count
  pub words : AreWords a.bitmap
  pub small : a.entry_count ≤ 2 ^ 26
  pub page_pos : 0 < a.page_size
  pub span : a.entry_count * 64 * a.page_size ≤ 2 ^ 48

-- whether page number `page` is claimed
abbrev pub is_claimed : Allocator → ℕ → Bool
is_claimed a page = claimed a.bitmap page

-- the pages that the bitmap stands for
abbrev pub page_count : Allocator → ℕ
page_count a = a.entry_count * 64

-- `result` is a valid allocator that differs from `a` at most in the bitmap, in which each page's
-- bit is `mark page` of its old bit.
pub record Marks (mark : ℕ → Bool → Bool) (a : Allocator) (result : Option Allocator) : Type 0 where
  pub out : Bitmap
  pub returns : result ≡ some (record a { bitmap = out })
  pub valid : IsValid (record a { bitmap = out })
  pub pages : (page : ℕ) → claimed out page ≡ mark page (claimed a.bitmap page)

pub IsValid-with_bitmap :
    {a : Allocator} {b : Bitmap}
    → IsValid a
    → length b ≡ length a.bitmap
    → AreWords b
    → IsValid (record a { bitmap = b })
IsValid-with_bitmap v e words = record {
  size = e ∙ v.size;
  words = words;
  small = v.small;
  page_pos = v.page_pos;
  span = v.span;
}

pub Marks-of_IsMarked :
    {a : Allocator} {mark : ℕ → Bool → Bool} {r : Option Bitmap}
    → IsValid a
    → IsMarked mark a.bitmap r
    → Marks mark a (r >>= with_bitmap a)
Marks-of_IsMarked v m = record {
  out = m.out;
  returns = rw m.returns refl;
  valid = IsValid-with_bitmap v m.same_length m.words;
  pages = m.pages;
}

pub strip_kernel_space_lem : (addr : ℕ) → strip_kernel_space addr ≡ addr % 2 ^ 48
unfolding strip_kernel_space
strip_kernel_space_lem addr = bit_and_low_mask 48 addr

-- The number of a page is read back from its address, physical or in the kernel's half.
pub get_page_number_lem :
    (a : Allocator) (page tag : ℕ)
    → 0 < a.page_size
    → page < 2 ^ 32
    → page * a.page_size < 2 ^ 48
    → get_page_number a (page * a.page_size + tag * 2 ^ 48) ≡ page
unfolding get_page_number
get_page_number_lem a page tag pos small fits =
    let e : (page * a.page_size + tag * 2 ^ 48) % 2 ^ 48 ≡ page * a.page_size = omega arith in
    rw (strip_kernel_space_lem, e, mul-div_cancel page pos) (omega arith)
