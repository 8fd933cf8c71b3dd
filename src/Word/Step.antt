-- ===== src/Word/Step.antt =====
-- One binary digit of `&` and `|`. The native operations stand for a recursion on digits whose fuel
-- is the first number; more fuel than the number gives the same.
use Prim.Native.Nat.{digits, bit_and-bitwise, bit_or-bitwise}
use native.Mathlib.Nat.{suc-add}
use pi_vos.Prelude.{
  ℕ, zero, suc, ◌+◌, ◌-◌, ◌*◌, ◌/◌, ◌%◌, ◌≤◌, min, max, bit_and, bit_or, ◌≡◌, refl, ◌∙◌, ap, arith,
}

module _ (last : ℕ → ℕ) (digit : ℕ → ℕ → ℕ) where
  abbrev upto : ℕ → ℕ → ℕ → ℕ
  upto = digits last digit

  one_more : (fuel x y : ℕ) → x ≤ fuel → upto (suc fuel) x y ≡ upto fuel x y
  one_more zero zero y h = refl
  one_more (suc fuel) zero y h = refl
  one_more zero (suc x) y h = absurd (omega arith)
  one_more (suc fuel) (suc x) y h =
      ap (λ w. w * 2 + digit (suc x % 2) (y % 2)) (one_more fuel (suc x / 2) (y / 2) (omega arith))

  any_more : (extra x y : ℕ) → upto (extra + x) x y ≡ upto x x y
  any_more zero x y = ap (λ fuel. upto fuel x y) (omega arith)
  any_more (suc extra) x y =
      ap (λ fuel. upto fuel x y) (suc-add extra x)
      ∙ one_more (extra + x) x y (omega arith)
      ∙ any_more extra x y

  -- the digits above the lowest one
  higher : (x y : ℕ) → upto x (suc x / 2) y ≡ upto (suc x / 2) (suc x / 2) y
  higher x y =
      ap (λ fuel. upto fuel (suc x / 2) y) (omega arith) ∙ any_more (x - suc x / 2) (suc x / 2) y

pub bit_and_step : (x y : ℕ) → bit_and x y ≡ min (x % 2) (y % 2) + 2 * bit_and (x / 2) (y / 2)
bit_and_step zero y = omega (arith, bit_and-bitwise zero y, bit_and-bitwise zero (y / 2))
bit_and_step (suc x) y = omega (
  arith,
  higher (λ d. zero) min x (y / 2),
  bit_and-bitwise (suc x) y,
  bit_and-bitwise (suc x / 2) (y / 2),
)

pub bit_or_step : (x y : ℕ) → bit_or x y ≡ max (x % 2) (y % 2) + 2 * bit_or (x / 2) (y / 2)
bit_or_step zero y = omega (arith, bit_or-bitwise zero y, bit_or-bitwise zero (y / 2))
bit_or_step (suc x) y = omega (
  arith,
  higher (λ d. d) max x (y / 2),
  bit_or-bitwise (suc x) y,
  bit_or-bitwise (suc x / 2) (y / 2),
)
