-- ===== src/Bytes/Compare.antt =====
-- utils.h: `bytecmp` against the equality of the two ranges.
use mathlib.Core.Path.{subst}
use pi_vos.Prelude.{
  ℕ, zero, suc, ◌+◌, ◌^◌, ◌≤◌, ◌<◌, ◌≡◌, ◌≢◌, refl, arith, true, false, some, ◌⊎◌, inl, inr, ◌==◌,
  ltb, Bool-cases,
}
use pi_vos.Word.{u64}
use pi_vos.Bytes.{Bytes, compare_loop, bytecmp}

module _ (a b n : ℕ) (mem : Bytes) (small : n < 2 ^ 31) (fits_a : a + n ≤ 2 ^ 64)
    (fits_b : b + n ≤ 2 ^ 64) where
  -- the first `i` bytes are the same
  abbrev pub IsSame : ℕ → Type 0
  IsSame i = (j : ℕ) → j < i → mem (a + j) ≡ mem (b + j)

  -- a first byte that differs
  abbrev pub Differs : Type 0
  Differs = (i : ℕ) × (i < n) × (mem (a + i) ≢ mem (b + i)) × IsSame i

  grow : (i : ℕ) → IsSame i → mem (a + i) ≡ mem (b + i) → IsSame (i + 1)
  grow i same e j h = elim (Bool-cases (j == i)) [
    | inl here ↦ let at : i ≡ j = ground arith in subst (λ (k : ℕ). mem (a + k) ≡ mem (b + k)) at e
    | inr before ↦ same j (ground arith)
  ]

  compare_loop_lem :
      (left i fuel : ℕ)
      → i + left ≡ n
      → left < fuel
      → IsSame i
      → ((compare_loop fuel a b n i mem ≡ some 0) × IsSame n)
        ⊎ ((compare_loop fuel a b n i mem ≡ some 1) × Differs)
  unfolding compare_loop
  compare_loop_lem left i zero h enough same = absurd (omega arith)
  compare_loop_lem zero i (suc fuel) h enough same =
      let no : ltb i n ≡ false = ground arith in
      let all : i ≡ n = omega arith in inl (rw no refl, subst IsSame all same)
  compare_loop_lem (suc left) i (suc fuel) h enough same =
      let yes : ltb i n ≡ true = ground arith in
      let at_a : u64 (a + i) ≡ a + i = omega arith in
      let at_b : u64 (b + i) ≡ b + i = omega arith in
      let fine : (i + 1 == 2 ^ 31) ≡ false = ground arith in
      elim (Bool-cases (mem (a + i) == mem (b + i))) [
        | inl e ↦
            let step : compare_loop (suc fuel) a b n i mem ≡ compare_loop fuel a b n (i + 1) mem =
              rw (yes, at_a, at_b, e, fine) refl in
            rw step (
              compare_loop_lem left (i + 1) fuel (omega arith) (omega arith)
                (grow i same (ground arith)))
        | inr ne ↦ inr (rw (yes, at_a, at_b, ne) refl, (i, omega arith, ground arith, same))
      ]

  -- `bytecmp` of fewer than `2 ^ 31` bytes that do not reach over the end of the address space ends:
  -- it gives 0 where the two ranges have the same bytes, and 1 where there is a first byte that
  -- differs.
  pub bytecmp_lem :
      (fuel : ℕ)
      → n < fuel
      → ((bytecmp fuel a b n mem ≡ some 0) × IsSame n)
        ⊎ ((bytecmp fuel a b n mem ≡ some 1) × Differs)
  unfolding bytecmp
  bytecmp_lem fuel enough =
      compare_loop_lem n 0 fuel (omega arith) enough λ j h. absurd (omega arith)
