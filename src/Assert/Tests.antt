-- ===== src/Assert/Tests.antt =====
-- The message "AAAAAAAAAA" on a stack of eight bytes.
use pi_vos.Prelude.{
  ℕ, ◌+◌, ◌-◌, ◌*◌, ◌^◌, ◌≤◌, ◌<◌, ◌≡◌, refl, arith, min, some, ◌⊎◌, ltb, if◌then◌else◌,
}
use pi_vos.Word.{u8}
use pi_vos.Bytes.{Bytes}
use pi_vos.Assert.{assert_check, halted, assert_check_lem}

abbrev letters : ℕ → ℕ
letters i = if ltb i 10 then 65 else 0

abbrev blank : Bytes
blank addr = 0

assert_check_lem_example :
    let count = min 10 (1008 - 1000) in
    (out : Bytes) × (assert_check 20 1000 1008 0 letters blank ≡ some (halted out))
    × (out 1000 + 2 ^ 8 * out (1000 + 1) + 2 ^ 16 * out (1000 + 2) + 2 ^ 24 * out (1000 + 3)
        ≡ count)
    × ((j : ℕ) → j < count → out (1000 + 4 + j) ≡ u8 (letters j))
    × ((addr : ℕ) → (addr < 1000) ⊎ (1000 + 4 + count ≤ addr) → out addr ≡ blank addr)
    × ((j : ℕ) → j < 4 → 1008 - 1000 ≤ 10 → out (1008 + j) ≡ u8 (letters (1008 - 1000 - 4 + j)))
assert_check_lem_example =
    assert_check_lem letters 20 1000 1008 10 blank (omega arith) (omega arith) (λ i h. ground arith)
      refl (omega arith) (omega arith)
