-- ===== src/Word.antt =====
-- Unsigned machine words of C as native numbers: a value of a w-bit type is a number below
-- `2 ^ w`, and each operation keeps its wrap-around.
pub mod Step
pub mod Bits
pub mod Range
pub mod Align
use pi_vos.Prelude.{
  ℕ, zero, suc, ◌+◌, ◌-◌, ◌*◌, ◌/◌, ◌%◌, ◌^◌, bit_and, bit_or, Bool, ◌==◌, ltb, if◌then◌else◌,
}

abbrev pub u8 : ℕ → ℕ
u8 n = n % 2 ^ 8

abbrev pub u16 : ℕ → ℕ
u16 n = n % 2 ^ 16

abbrev pub u32 : ℕ → ℕ
u32 n = n % 2 ^ 32

abbrev pub u64 : ℕ → ℕ
u64 n = n % 2 ^ 64

-- `a - b` at 32 and at 64 bits; `-` on ℕ stops at 0, so the modulus is added first.
abbrev pub sub32 : ℕ → ℕ → ℕ
sub32 a b = (a + 2 ^ 32 - b) % 2 ^ 32

abbrev pub sub64 : ℕ → ℕ → ℕ
sub64 a b = (a + 2 ^ 64 - b) % 2 ^ 64

-- `~x`, `x << k` and `x >> k` on `uint64_t`
abbrev pub not64 : ℕ → ℕ
not64 x = 2 ^ 64 - 1 - x

abbrev pub shl64 : ℕ → ℕ → ℕ
shl64 x k = (x * 2 ^ k) % 2 ^ 64

-- `x << k` on a bit-field of 36 bits, whose type in GCC has 36 bits: what is above them is lost
-- before the result becomes a `uint64_t`.
abbrev pub shl36 : ℕ → ℕ → ℕ
shl36 x k = (x * 2 ^ k) % 2 ^ 36

-- `x << k` on a bit-field of less than 32 bits, which is promoted to `int`: the result wraps around
-- at 32 bits, as GCC computes it, and gets the sign's bits in front where it becomes a `uint64_t`.
abbrev sign_extend32 : ℕ → ℕ
sign_extend32 x = if ltb x (2 ^ 31) then x else x + (2 ^ 64 - 2 ^ 32)

unfoldable pub shl_int : ℕ → ℕ → ℕ
shl_int x k = sign_extend32 (u32 (x * 2 ^ k))

abbrev pub shr : ℕ → ℕ → ℕ
shr x k = x / 2 ^ k

-- `ALIGN_DOWN` and `ALIGN_UP` of utils.h on `uint64_t`, and `ALIGN_UP` on `uint32_t`
unfoldable pub align_down64 : ℕ → ℕ → ℕ
align_down64 addr align = bit_and addr (not64 (sub64 align 1))

unfoldable pub align_up64 : ℕ → ℕ → ℕ
align_up64 addr align = bit_and (sub64 (addr + align) 1) (not64 (sub64 align 1))

unfoldable pub align_up32 : ℕ → ℕ → ℕ
align_up32 addr align = bit_and (sub32 (addr + align) 1) (2 ^ 32 - 1 - sub32 align 1)

-- `KERNEL_SPACE_MASK` and `x & ~KERNEL_SPACE_MASK`
abbrev pub kernel_space_mask : ℕ
kernel_space_mask = 0xFFFF * 2 ^ 48

unfoldable pub strip_kernel_space : ℕ → ℕ
strip_kernel_space addr = bit_and addr (not64 kernel_space_mask)

-- `x | KERNEL_SPACE_MASK`
unfoldable pub to_kernel_space : ℕ → ℕ
to_kernel_space addr = bit_or addr kernel_space_mask

-- bit `i` of a word, counted from the least significant one
unfoldable pub test_bit : ℕ → ℕ → Bool
test_bit w zero = w % 2 == 1
test_bit w (suc i) = test_bit (w / 2) i
