-- ===== src/Word/Align.antt =====
-- `ALIGN_UP` and `ALIGN_DOWN` by a power of two, as division and multiplication.
use native.Mathlib.Nat.{pow-suc, one-le-pow, pow-le-pow_right, mod-eq_of_lt, add-mul-div_right}
use pi_vos.Prelude.{ℕ, zero, suc, ◌+◌, ◌-◌, ◌*◌, ◌/◌, ◌^◌, ◌≤◌, ◌<◌, bit_and, ◌≡◌, arith, ap, ◌∙◌}
use pi_vos.Word.{sub32, sub64, not64, align_down64, align_up64, align_up32}
use pi_vos.Word.Step.{bit_and_step}
use pi_vos.Word.Bits.{bit_and_low_mask, double_shift}
use pi_vos.Word.Range.{half_shift}

pub pow-two-le : (k w : ℕ) → k ≤ w → 2 ^ k ≤ 2 ^ w
pow-two-le k w h = pow-le-pow_right {n = 2} (omega arith) h

pub pow_two_factor : (k n : ℕ) → k ≤ n → 2 ^ n ≡ 2 ^ (n - k) * 2 ^ k
pow_two_factor zero n h =
    let e : n - 0 ≡ n = omega arith in let d : 2 ^ n ≡ 2 ^ n * 2 ^ 0 = omega arith in rw e d
pow_two_factor (suc k) zero h = absurd (omega arith)
pow_two_factor (suc k) (suc n) h =
    let e : suc n - suc k ≡ n - k = omega arith in
    rw e (
      omega (
        arith,
        pow-suc 2 n,
        pow_two_factor k n (omega arith),
        ap (λ (t : ℕ). 2 ^ (n - k) * t) (pow-suc 2 k),
      ))

-- Rounding up leaves what is a multiple of `2 ^ k` already.
pub round_up-add :
    (c i s k n : ℕ)
    → k ≤ n
    → (i * 2 ^ k + s * 2 ^ n + c + 2 ^ k - 1) / 2 ^ k * 2 ^ k
      ≡ (i + (c + 2 ^ k - 1) / 2 ^ k) * 2 ^ k + s * 2 ^ n
round_up-add c i s k n h =
    let whole : s * 2 ^ n ≡ s * 2 ^ (n - k) * 2 ^ k =
      omega (arith, ap (λ (t : ℕ). s * t) (pow_two_factor k n h)) in
    let sum : i * 2 ^ k + s * 2 ^ n + c + 2 ^ k - 1
        ≡ c + 2 ^ k - 1 + (i + s * 2 ^ (n - k)) * 2 ^ k =
      omega (arith, whole, one-le-pow k 2) in
    rw (sum, add-mul-div_right (c + 2 ^ k - 1) (i + s * 2 ^ (n - k)) (one-le-pow k 2 (omega arith)))
      (omega (arith, whole))

-- A mask without its `k` low bits rounds down to a multiple of `2 ^ k`.
pub bit_and_high_mask :
    (w k x : ℕ) → k ≤ w → x < 2 ^ w → bit_and x (2 ^ w - 2 ^ k) ≡ x / 2 ^ k * 2 ^ k
bit_and_high_mask w zero x h l = bit_and_low_mask w x ∙ (mod-eq_of_lt l ∙ omega arith)
bit_and_high_mask zero (suc k) x h l = absurd (omega arith)
bit_and_high_mask (suc w) (suc k) x h l =
    let e : (2 ^ suc w - 2 ^ suc k) / 2 ≡ 2 ^ w - 2 ^ k = omega (arith, pow-suc 2 k, pow-suc 2 w) in
    let halves : bit_and (x / 2) ((2 ^ suc w - 2 ^ suc k) / 2) ≡ x / 2 / 2 ^ k * 2 ^ k =
      rw e (bit_and_high_mask w k (x / 2) (omega arith) (omega (arith, pow-suc 2 w))) in
    omega (
      arith,
      bit_and_step x (2 ^ suc w - 2 ^ suc k),
      halves,
      pow-suc 2 k,
      pow-suc 2 w,
      double_shift (x / 2 / 2 ^ k) k,
      ap (λ (t : ℕ). t * 2 ^ suc k) (half_shift x k),
    )

-- `addr & ~(2 ^ k - 1)` and `(addr + 2 ^ k - 1) & ~(2 ^ k - 1)`
pub align_down64_lem :
    (addr k : ℕ) → k < 64 → addr < 2 ^ 64 → align_down64 addr (2 ^ k) ≡ addr / 2 ^ k * 2 ^ k
unfolding align_down64
align_down64_lem addr k h l =
    let e : not64 (sub64 (2 ^ k) 1) ≡ 2 ^ 64 - 2 ^ k =
      omega (arith, one-le-pow k 2, pow-two-le k 63 (omega arith)) in
    rw e (bit_and_high_mask 64 k addr (omega arith) l)

pub align_up64_lem :
    (addr k : ℕ)
    → k < 64
    → addr + 2 ^ k ≤ 2 ^ 64
    → align_up64 addr (2 ^ k) ≡ (addr + 2 ^ k - 1) / 2 ^ k * 2 ^ k
unfolding align_up64
align_up64_lem addr k h l =
    let e : not64 (sub64 (2 ^ k) 1) ≡ 2 ^ 64 - 2 ^ k =
      omega (arith, one-le-pow k 2, pow-two-le k 63 (omega arith)) in
    let d : sub64 (addr + 2 ^ k) 1 ≡ addr + 2 ^ k - 1 = omega (arith, one-le-pow k 2) in
    rw (e, d)
      (bit_and_high_mask 64 k (addr + 2 ^ k - 1) (omega arith) (omega (arith, one-le-pow k 2)))

pub align_up32_lem :
    (n k : ℕ) → k < 32 → n + 2 ^ k ≤ 2 ^ 32 → align_up32 n (2 ^ k) ≡ (n + 2 ^ k - 1) / 2 ^ k * 2 ^ k
unfolding align_up32
align_up32_lem n k h l =
    let e : 2 ^ 32 - 1 - sub32 (2 ^ k) 1 ≡ 2 ^ 32 - 2 ^ k =
      omega (arith, one-le-pow k 2, pow-two-le k 31 (omega arith)) in
    let d : sub32 (n + 2 ^ k) 1 ≡ n + 2 ^ k - 1 = omega (arith, one-le-pow k 2) in
    rw (e, d) (bit_and_high_mask 32 k (n + 2 ^ k - 1) (omega arith) (omega (arith, one-le-pow k 2)))
