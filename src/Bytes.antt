-- ===== src/Bytes.antt =====
-- The loops over bytes: `bytecpy`, `byteset` and `bytecmp` of include/kernel/utils.h, and libc.c.
--
-- Memory is a function from an address to the byte there. The loops run on fuel, and `none` is too
-- little of it, or a signed overflow. The index of a loop has `w` bits, the counts have the 64 or 32
-- bits of their types.
pub mod Loops
pub mod Libc
pub mod Compare
mod Tests
use pi_vos.Prelude.{ℕ, zero, suc, ◌+◌, ◌%◌, ◌^◌, Option, none, some, ◌==◌, ltb, if◌then◌else◌}
use pi_vos.Word.{u8, u64}

abbrev pub Bytes : Type 0
Bytes = ℕ → ℕ

unfoldable pub set_byte : Bytes → ℕ → ℕ → Bytes
set_byte mem addr value other = if other == addr then u8 value else mem other

-- `for (i = 0; i < num; i++) ptr_c[i] = value;`
unfoldable pub set_loop : ℕ → ℕ → ℕ → ℕ → ℕ → ℕ → Bytes → Option Bytes
set_loop w zero dst value num i mem = if ltb i num then none else some mem
set_loop w (suc fuel) dst value num i mem =
    let rest =
      set_loop w fuel dst value num ((i + 1) % 2 ^ w) (set_byte mem (u64 (dst + i)) value) in
    if ltb i num then rest else some mem

-- `for (i = 0; i < num; i++) dst[i] = src[i];`
unfoldable pub copy_loop : ℕ → ℕ → ℕ → ℕ → ℕ → ℕ → Bytes → Option Bytes
copy_loop w zero dst src num i mem = if ltb i num then none else some mem
copy_loop w (suc fuel) dst src num i mem =
    let rest =
      copy_loop w fuel dst src num ((i + 1) % 2 ^ w)
        (set_byte mem (u64 (dst + i)) (mem (u64 (src + i)))) in
    if ltb i num then rest else some mem

unfoldable pub byteset : ℕ → ℕ → ℕ → ℕ → Bytes → Option Bytes
byteset fuel dst value num mem = set_loop 64 fuel dst value num 0 mem

unfoldable pub bytecpy : ℕ → ℕ → ℕ → ℕ → Bytes → Option Bytes
bytecpy fuel dst src n mem = copy_loop 64 fuel dst src n 0 mem

unfoldable pub memset : ℕ → ℕ → ℕ → ℕ → Bytes → Option (ℕ × Bytes)
memset fuel ptr value num mem = elim (set_loop 32 fuel ptr value num 0 mem) [
  | none ↦ none
  | some mem1 ↦ some (ptr, mem1)
]

unfoldable pub memcpy : ℕ → ℕ → ℕ → ℕ → Bytes → Option (ℕ × Bytes)
memcpy fuel destination source num mem = elim (copy_loop 32 fuel destination source num 0 mem) [
  | none ↦ none
  | some mem1 ↦ some (destination, mem1)
]

-- `int32_t i`: the comparison with `uint32_t n` is unsigned, and a step past `2 ^ 31 - 1` overflows.
unfoldable pub compare_loop : ℕ → ℕ → ℕ → ℕ → ℕ → Bytes → Option ℕ
compare_loop zero a b n i mem = none
compare_loop (suc fuel) a b n i mem =
    let rest = compare_loop fuel a b n (i + 1) mem in
    if ltb i n
    then (if mem (u64 (a + i)) == mem (u64 (b + i))
        then (if i + 1 == 2 ^ 31 then none else rest)
        else some 1)
    else some 0

unfoldable pub bytecmp : ℕ → ℕ → ℕ → ℕ → Bytes → Option ℕ
bytecmp fuel a b n mem = compare_loop fuel a b n 0 mem
