-- ===== src/Word/Bits.antt =====
-- `test_bit` through `&`, `|`, `~`, shifts and masks, at every position.
use Prim.Native.Nat.{bit_or-bitwise}
use native.Mathlib.Nat.{pow-suc, one-le-pow}
use pi_vos.Prelude.{
  ℕ, zero, suc, ◌+◌, ◌-◌, ◌*◌, ◌/◌, ◌%◌, ◌^◌, ◌≤◌, ◌<◌, bit_and, bit_or, ◌≡◌, refl, arith, false,
  not, ◌&&◌, ◌||◌, ltb, ap, ◌∙◌,
}
use pi_vos.Word.{test_bit}
use pi_vos.Word.Step.{bit_and_step, bit_or_step}

pub test_bit-bit_and : (i a b : ℕ) → test_bit (bit_and a b) i ≡ (test_bit a i && test_bit b i)
unfolding test_bit
test_bit-bit_and zero a b = ground (arith, bit_and_step a b)
test_bit-bit_and (suc i) a b = rw e (test_bit-bit_and i (a / 2) (b / 2))
  where
    e : bit_and a b / 2 ≡ bit_and (a / 2) (b / 2)
    e = omega (arith, bit_and_step a b)

pub test_bit-bit_or : (i a b : ℕ) → test_bit (bit_or a b) i ≡ (test_bit a i || test_bit b i)
unfolding test_bit
test_bit-bit_or zero a b = ground (arith, bit_or_step a b)
test_bit-bit_or (suc i) a b = rw e (test_bit-bit_or i (a / 2) (b / 2))
  where
    e : bit_or a b / 2 ≡ bit_or (a / 2) (b / 2)
    e = omega (arith, bit_or_step a b)

-- the complement at width `k`
pub test_bit_complement :
    (i k w : ℕ) → i < k → w < 2 ^ k → test_bit (2 ^ k - 1 - w) i ≡ not (test_bit w i)
unfolding test_bit
test_bit_complement i zero w h l = elim h [ ]
test_bit_complement zero (suc k) w h l = ground (arith, pow-suc 2 k)
test_bit_complement (suc i) (suc k) w h l =
    rw e (test_bit_complement i k (w / 2) (omega arith) (omega (arith, pow-suc 2 k)))
  where
    e : (2 ^ suc k - 1 - w) / 2 ≡ 2 ^ k - 1 - w / 2
    e = omega (arith, pow-suc 2 k)

pub test_bit-zero : (i : ℕ) → test_bit 0 i ≡ false
unfolding test_bit
test_bit-zero zero = refl
test_bit-zero (suc i) = test_bit-zero i

-- `n` ones from the bottom
pub test_bit_ones : (i n : ℕ) → test_bit (2 ^ n - 1) i ≡ ltb i n
unfolding test_bit
test_bit_ones i zero = test_bit-zero i ∙ ground arith
test_bit_ones zero (suc n) = ground (arith, pow-suc 2 n, one-le-pow n 2)
test_bit_ones (suc i) (suc n) = rw e (test_bit_ones i n ∙ ground arith)
  where
    e : (2 ^ suc n - 1) / 2 ≡ 2 ^ n - 1
    e = omega (arith, pow-suc 2 n)

-- a shift to the left by `k`
pub test_bit_shift_low : (i k w : ℕ) → i < k → test_bit (w * 2 ^ k) i ≡ false
unfolding test_bit
test_bit_shift_low i zero w h = elim h [ ]
test_bit_shift_low zero (suc k) w h = ground (arith, ap (λ (t : ℕ). w * t) (pow-suc 2 k))
test_bit_shift_low (suc i) (suc k) w h = rw e (test_bit_shift_low i k w (omega arith))
  where
    e : w * 2 ^ suc k / 2 ≡ w * 2 ^ k
    e = omega (arith, ap (λ (t : ℕ). w * t) (pow-suc 2 k))

pub test_bit_shift_high : (i k w : ℕ) → k ≤ i → test_bit (w * 2 ^ k) i ≡ test_bit w (i - k)
unfolding test_bit
test_bit_shift_high i zero w h = rw (e, d) refl
  where
    e : w * 2 ^ 0 ≡ w
    e = omega arith

    d : i - 0 ≡ i
    d = omega arith
test_bit_shift_high zero (suc k) w h = absurd (omega arith)
test_bit_shift_high (suc i) (suc k) w h = rw (e, d) (test_bit_shift_high i k w (omega arith))
  where
    e : w * 2 ^ suc k / 2 ≡ w * 2 ^ k
    e = omega (arith, ap (λ (t : ℕ). w * t) (pow-suc 2 k))

    d : suc i - suc k ≡ i - k
    d = omega arith

-- `x & (2 ^ k - 1)` and `x | (q << k)` as arithmetic
bit_and-zero : (n a : ℕ) → a ≤ n → bit_and a 0 ≡ 0
bit_and-zero zero zero h = refl
bit_and-zero zero (suc a) h = absurd (omega arith)
bit_and-zero (suc n) zero h = refl
bit_and-zero (suc n) (suc a) h =
    omega (arith, bit_and_step (suc a) 0, bit_and-zero n (suc a / 2) (omega arith))

-- shifting one place further is doubling
pub double_shift : (q k : ℕ) → q * 2 ^ suc k ≡ 2 * (q * 2 ^ k)
double_shift q k = omega (arith, ap (λ (t : ℕ). q * t) (pow-suc 2 k))

bit_and_split : (k q r : ℕ) → r < 2 ^ k → bit_and (q * 2 ^ k + r) (2 ^ k - 1) ≡ r
bit_and_split zero q r h = omega (arith, bit_and-zero (q * 2 ^ 0 + r) (q * 2 ^ 0 + r) (omega arith))
bit_and_split (suc k) q r h = ground (
  arith,
  bit_and_step (q * 2 ^ suc k + r) (2 ^ suc k - 1),
  double_shift q k,
  pow-suc 2 k,
  bit_and_split k q (r / 2) (omega (arith, pow-suc 2 k)),
)

pub bit_and_low_mask : (k a : ℕ) → bit_and a (2 ^ k - 1) ≡ a % 2 ^ k
bit_and_low_mask k a = ground (arith, one-le-pow k 2, bit_and_split k (a / 2 ^ k) (a % 2 ^ k))

zero-bit_or : (b : ℕ) → bit_or 0 b ≡ b
zero-bit_or b = bit_or-bitwise 0 b

pub bit_or_disjoint : (k r q : ℕ) → r < 2 ^ k → bit_or r (q * 2 ^ k) ≡ r + q * 2 ^ k
bit_or_disjoint zero r q h =
    let e : r ≡ 0 = omega arith in rw (e, zero-bit_or (q * 2 ^ 0)) (omega arith)
bit_or_disjoint (suc k) r q h =
    let e : q * 2 ^ suc k ≡ 2 * (q * 2 ^ k) = omega (arith, ap (λ (t : ℕ). q * t) (pow-suc 2 k)) in
    let d : q * 2 ^ suc k / 2 ≡ q * 2 ^ k = omega arith in
    let halves : bit_or (r / 2) (q * 2 ^ suc k / 2) ≡ r / 2 + q * 2 ^ k =
      rw d (bit_or_disjoint k (r / 2) q (omega (arith, pow-suc 2 k))) in
    omega (arith, bit_or_step r (q * 2 ^ suc k), halves)
