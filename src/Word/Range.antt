-- ===== src/Word/Range.antt =====
-- Ranges of words: what `&`, `|`, `<<` and `>>` keep below `2 ^ k`, and the positions that a shift
-- to the right or a truncation leaves.
use Prim.Native.Nat.{bit_and-bitwise}
use native.Mathlib.Nat.{pow-suc, mul_comm, div-div-eq-div-mul}
use pi_vos.Prelude.{
  ℕ, zero, suc, ◌+◌, ◌*◌, ◌/◌, ◌%◌, ◌^◌, ◌≤◌, ◌<◌, bit_and, bit_or, ◌≡◌, refl, sym, ap, arith,
  false,
}
use pi_vos.Word.{test_bit}
use pi_vos.Word.Step.{bit_and_step, bit_or_step}

pub bit_or-lt : (k a b : ℕ) → a < 2 ^ k → b < 2 ^ k → bit_or a b < 2 ^ k
bit_or-lt zero a b p q =
    let e : a ≡ 0 = omega arith in let d : b ≡ 0 = omega arith in rw (e, d) (omega arith)
bit_or-lt (suc k) a b p q = omega (
  arith,
  bit_or_step a b,
  pow-suc 2 k,
  bit_or-lt k (a / 2) (b / 2) (omega (arith, pow-suc 2 k)) (omega (arith, pow-suc 2 k)),
)

pub bit_and-lt : (k a b : ℕ) → a < 2 ^ k → bit_and a b < 2 ^ k
bit_and-lt zero a b p = let e : a ≡ 0 = omega arith in rw (e, bit_and-bitwise 0 b) (omega arith)
bit_and-lt (suc k) a b p = omega (
  arith,
  bit_and_step a b,
  pow-suc 2 k,
  bit_and-lt k (a / 2) (b / 2) (omega (arith, pow-suc 2 k)),
)

-- halving after a shift to the right
pub half_shift : (w k : ℕ) → w / 2 ^ suc k ≡ w / 2 / 2 ^ k
half_shift w k = rw (pow-suc 2 k, mul_comm (2 ^ k) 2) (sym (div-div-eq-div-mul w 2 (2 ^ k)))

-- truncation, digit by digit
half_truncate : (w k : ℕ) → w % 2 ^ suc k ≡ 2 * (w / 2 % 2 ^ k) + w % 2
half_truncate w k = omega (
  arith,
  half_shift w k,
  ap (λ (t : ℕ). w / 2 ^ suc k * t) (pow-suc 2 k),
  ap (λ (t : ℕ). t * 2 ^ k) (half_shift w k),
)

pub test_bit_shift_right : (k i w : ℕ) → test_bit (w / 2 ^ k) i ≡ test_bit w (k + i)
unfolding test_bit
test_bit_shift_right zero i w =
    let e : w / 2 ^ 0 ≡ w = omega arith in let d : 0 + i ≡ i = omega arith in rw (e, d) refl
test_bit_shift_right (suc k) i w =
    let d : suc k + i ≡ suc (k + i) = omega arith in
    rw (d, half_shift w k) (test_bit_shift_right k i (w / 2))

pub test_bit_truncate : (i k w : ℕ) → i < k → test_bit (w % 2 ^ k) i ≡ test_bit w i
unfolding test_bit
test_bit_truncate i zero w h = elim h [ ]
test_bit_truncate zero (suc k) w h = ground (arith, half_truncate w k)
test_bit_truncate (suc i) (suc k) w h =
    let e : w % 2 ^ suc k / 2 ≡ w / 2 % 2 ^ k = omega (arith, half_truncate w k) in
    rw e (test_bit_truncate i k (w / 2) (omega arith))

pub test_bit_of_lt : (k i w : ℕ) → w < 2 ^ k → k ≤ i → test_bit w i ≡ false
unfolding test_bit
test_bit_of_lt zero zero w p q = ground arith
test_bit_of_lt zero (suc i) w p q = test_bit_of_lt zero i (w / 2) (omega arith) (omega arith)
test_bit_of_lt (suc k) zero w p q = absurd (omega arith)
test_bit_of_lt (suc k) (suc i) w p q =
    test_bit_of_lt k i (w / 2) (omega (arith, pow-suc 2 k)) (omega arith)
