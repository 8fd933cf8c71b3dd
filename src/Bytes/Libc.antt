-- ===== src/Bytes/Libc.antt =====
-- libc.c and the copies of utils.h: what a call does, and when it does not end.
use pi_vos.Prelude.{ℕ, ◌+◌, ◌^◌, ◌≤◌, ◌<◌, ◌≡◌, refl, arith, none, some, ◌⊎◌}
use pi_vos.Word.{u8}
use pi_vos.Bytes.{Bytes, byteset, bytecpy, memset, memcpy}
use pi_vos.Bytes.Loops.{set_loop-HasBytes, copy_loop-IsCopied, set_loop_never, copy_loop_never}

-- `memset` and `memcpy` never end for a count of `2 ^ 32` bytes or more, since their index has 32
-- bits.
pub libc_never :
    (fuel ptr value src num : ℕ) (mem : Bytes)
    → 2 ^ 32 ≤ num
    → (memset fuel ptr value num mem ≡ none) × (memcpy fuel ptr src num mem ≡ none)
unfolding memset memcpy
libc_never fuel ptr value src num mem many = (
  rw (memset, set_loop_never 32 ptr value num 0 fuel mem many (omega arith)) refl,
  rw (memcpy, copy_loop_never 32 ptr src num 0 fuel mem many (omega arith)) refl,
)

-- `memset` of fewer than `2 ^ 32` bytes that do not reach over the end of the address space ends,
-- with a round for each byte, gives the pointer back, sets those bytes to the low 8 bits of the
-- value and changes no other byte.
pub memset_lem :
    (fuel ptr value num : ℕ) (mem : Bytes)
    → num < 2 ^ 32
    → num ≤ fuel
    → ptr + num ≤ 2 ^ 64
    → (out : Bytes) × (memset fuel ptr value num mem ≡ some (ptr, out))
      × ((j : ℕ) → j < num → out (ptr + j) ≡ u8 value)
      × ((addr : ℕ) → (addr < ptr) ⊎ (ptr + num ≤ addr) → out addr ≡ mem addr)
unfolding memset
memset_lem fuel ptr value num mem small enough fits =
    let (out, run, is) =
      set_loop-HasBytes 32 ptr num small fits value num 0 fuel mem (omega arith) enough in
    (
      out,
      rw (memset, run) refl,
      λ j h. is.0 j (omega arith) h,
      λ addr away. is.1 addr (omega arith),
    )

-- `memcpy` of fewer than `2 ^ 32` bytes, where neither range reaches over the end of the address
-- space, and the destination does not start within the source behind its first byte, ends, with a
-- round for each byte, gives the destination back, which then has the bytes that the source had,
-- and changes no other byte.
pub memcpy_lem :
    (fuel destination source num : ℕ) (mem : Bytes)
    → num < 2 ^ 32
    → num ≤ fuel
    → destination + num ≤ 2 ^ 64
    → source + num ≤ 2 ^ 64
    → (destination ≤ source) ⊎ (source + num ≤ destination)
    → (out : Bytes) × (memcpy fuel destination source num mem ≡ some (destination, out))
      × ((j : ℕ) → j < num → out (destination + j) ≡ u8 (mem (source + j)))
      × ((addr : ℕ) → (addr < destination) ⊎ (destination + num ≤ addr) → out addr ≡ mem addr)
unfolding memcpy
memcpy_lem fuel destination source num mem small enough fits there order =
    let (out, run, is) =
      copy_loop-IsCopied 32 destination num small fits source there order num 0 fuel mem
        (omega arith) enough in
    (
      out,
      rw (memcpy, run) refl,
      λ j h. is.0 j (omega arith) h,
      λ addr away. is.1 addr (omega arith),
    )

-- `bytecpy` and `byteset`, whose index has 64 bits, do the same for any count, under the conditions of
-- `memcpy` on the ranges.
pub bytecpy-byteset :
    (fuel dst src value n : ℕ) (mem : Bytes)
    → n < 2 ^ 64
    → n ≤ fuel
    → dst + n ≤ 2 ^ 64
    → src + n ≤ 2 ^ 64
    → (dst ≤ src) ⊎ (src + n ≤ dst)
    → ((out : Bytes) × (bytecpy fuel dst src n mem ≡ some out)
        × ((j : ℕ) → j < n → out (dst + j) ≡ u8 (mem (src + j)))
        × ((addr : ℕ) → (addr < dst) ⊎ (dst + n ≤ addr) → out addr ≡ mem addr))
      × ((out : Bytes) × (byteset fuel dst value n mem ≡ some out)
          × ((j : ℕ) → j < n → out (dst + j) ≡ u8 value)
          × ((addr : ℕ) → (addr < dst) ⊎ (dst + n ≤ addr) → out addr ≡ mem addr))
unfolding bytecpy byteset
bytecpy-byteset fuel dst src value n mem small enough fits there order =
    let (copied, run, is) =
      copy_loop-IsCopied 64 dst n small fits src there order n 0 fuel mem (omega arith) enough in
    let (written, run1, is1) =
      set_loop-HasBytes 64 dst n small fits value n 0 fuel mem (omega arith) enough in
    (
      (copied, run, λ j h. is.0 j (omega arith) h, λ addr away. is.1 addr (omega arith)),
      (written, run1, λ j h. is1.0 j (omega arith) h, λ addr away. is1.1 addr (omega arith)),
    )
