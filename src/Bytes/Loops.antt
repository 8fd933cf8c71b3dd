-- ===== src/Bytes/Loops.antt =====
-- utils.h and libc.c: what the loops over bytes write, and when they end.
use native.Mathlib.Nat.{mod-eq_of_lt, mod-lt}
use mathlib.Core.Path.{subst}
use pi_vos.Prelude.{
  ℕ, zero, suc, ◌+◌, ◌%◌, ◌^◌, ◌≤◌, ◌<◌, ◌≡◌, ◌≢◌, refl, arith, true, false, ap, ◌∙◌, none, some,
  ◌⊎◌, inl, inr, ◌==◌, ltb, Bool-cases,
}
use pi_vos.Word.{u8, u64}
use pi_vos.Bytes.{Bytes, set_byte, set_loop, copy_loop}

pub set_byte_same : (mem : Bytes) (addr value : ℕ) → set_byte mem addr value addr ≡ u8 value
unfolding set_byte
set_byte_same mem addr value = ground arith

pub set_byte_other :
    (mem : Bytes) (addr value other : ℕ) → other ≢ addr → set_byte mem addr value other ≡ mem other
unfolding set_byte
set_byte_other mem addr value other h = ground arith

-- What holds at `i` and behind it holds from `i` on.
pub first_or : (i j : ℕ) (P : ℕ → Type 0) → i ≤ j → P i → (i + 1 ≤ j → P j) → P j
first_or i j P low now later = elim (Bool-cases (i == j)) [
  | inl same ↦ let e : i ≡ j = ground arith in subst P e now
  | inr more ↦ later (ground arith)
]

-- The index of a loop over fewer than `2 ^ w` rounds does not wrap.
index_next : (w i num : ℕ) → i < num → num < 2 ^ w → (i + 1) % 2 ^ w ≡ i + 1
index_next w i num h small = mod-eq_of_lt (omega arith)

module _ (w dst num : ℕ) (small : num < 2 ^ w) (fits : dst + num ≤ 2 ^ 64) where
  -- Memory with the bytes from `i` on set.
  abbrev HasBytes : ℕ → ℕ → Bytes → Bytes → Type 0
  HasBytes value i mem out =
      ((j : ℕ) → i ≤ j → j < num → out (dst + j) ≡ u8 value)
      × ((addr : ℕ) → (addr < dst + i) ⊎ (dst + num ≤ addr) → out addr ≡ mem addr)

  pub set_loop-HasBytes :
      (value left i fuel : ℕ) (mem : Bytes)
      → i + left ≡ num
      → left ≤ fuel
      → (out : Bytes) × (set_loop w fuel dst value num i mem ≡ some out) × HasBytes value i mem out
  unfolding set_loop
  set_loop-HasBytes value zero i zero mem h enough =
      (mem, ground arith, (λ j low high. absurd (omega arith), λ addr out. refl))
  set_loop-HasBytes value zero i (suc fuel) mem h enough =
      let no : ltb i num ≡ false = ground arith in
      (mem, rw no refl, (λ j low high. absurd (omega arith), λ addr out. refl))
  set_loop-HasBytes value (suc left) i zero mem h enough = absurd (omega arith)
  set_loop-HasBytes value (suc left) i (suc fuel) mem h enough =
      let yes : ltb i num ≡ true = ground arith in
      let here : u64 (dst + i) ≡ dst + i = omega arith in
      let next = index_next w i num (omega arith) small in
      let step : set_loop w (suc fuel) dst value num i mem
          ≡ set_loop w fuel dst value num (i + 1) (set_byte mem (dst + i) value) =
        rw (yes, next, here) refl in
      let (out, run, is) =
        set_loop-HasBytes value left (i + 1) fuel (set_byte mem (dst + i) value) (omega arith)
          (omega arith) in
      let now : out (dst + i) ≡ u8 value =
        is.1 (dst + i) (inl (omega arith)) ∙ set_byte_same mem (dst + i) value in
      (
        out,
        step ∙ run,
        (
          λ j low high.
              first_or i j (λ k. out (dst + k) ≡ u8 value) low now λ more. is.0 j more high,
          λ addr away.
              is.1 addr (omega arith) ∙ set_byte_other mem (dst + i) value addr (omega arith),
        ),
      )

  -- ... and copied from `src` on, as they were before.
  module _ (src : ℕ) (there : src + num ≤ 2 ^ 64) (order : (dst ≤ src) ⊎ (src + num ≤ dst)) where
    abbrev IsCopied : ℕ → Bytes → Bytes → Type 0
    IsCopied i mem out =
        ((j : ℕ) → i ≤ j → j < num → out (dst + j) ≡ u8 (mem (src + j)))
        × ((addr : ℕ) → (addr < dst + i) ⊎ (dst + num ≤ addr) → out addr ≡ mem addr)

    pub copy_loop-IsCopied :
        (left i fuel : ℕ) (mem : Bytes)
        → i + left ≡ num
        → left ≤ fuel
        → (out : Bytes) × (copy_loop w fuel dst src num i mem ≡ some out) × IsCopied i mem out
    unfolding copy_loop
    copy_loop-IsCopied zero i zero mem h enough =
        (mem, ground arith, (λ j low high. absurd (omega arith), λ addr out. refl))
    copy_loop-IsCopied zero i (suc fuel) mem h enough =
        let no : ltb i num ≡ false = ground arith in
        (mem, rw no refl, (λ j low high. absurd (omega arith), λ addr out. refl))
    copy_loop-IsCopied (suc left) i zero mem h enough = absurd (omega arith)
    copy_loop-IsCopied (suc left) i (suc fuel) mem h enough =
        let yes : ltb i num ≡ true = ground arith in
        let to : u64 (dst + i) ≡ dst + i = omega arith in
        let from : u64 (src + i) ≡ src + i = omega arith in
        let next = index_next w i num (omega arith) small in
        let written : Bytes = set_byte mem (dst + i) (mem (src + i)) in
        let step : copy_loop w (suc fuel) dst src num i mem
            ≡ copy_loop w fuel dst src num (i + 1) written =
          rw (yes, next, to, from) refl in
        let (out, run, is) =
          copy_loop-IsCopied left (i + 1) fuel written (omega arith) (omega arith) in
        let now : out (dst + i) ≡ u8 (mem (src + i)) =
          is.1 (dst + i) (inl (omega arith)) ∙ set_byte_same mem (dst + i) (mem (src + i)) in
        (
          out,
          step ∙ run,
          (
            λ j low high.
                first_or i j (λ k. out (dst + k) ≡ u8 (mem (src + k))) low now
                  λ more.
                    is.0 j more high
                    ∙ ap u8 (set_byte_other mem (dst + i) (mem (src + i)) (src + j) (omega arith)),
            λ addr away.
                is.1 addr (omega arith)
                ∙ set_byte_other mem (dst + i) (mem (src + i)) addr (omega arith),
          ),
        )

-- A loop whose count its index cannot reach does not end, whatever the fuel.
pub set_loop_never :
    (w dst value num i fuel : ℕ) (mem : Bytes)
    → 2 ^ w ≤ num
    → i < 2 ^ w
    → set_loop w fuel dst value num i mem ≡ none
unfolding set_loop
set_loop_never w dst value num i zero mem many h =
    let yes : ltb i num ≡ true = ground arith in rw yes refl
set_loop_never w dst value num i (suc fuel) mem many h =
    let yes : ltb i num ≡ true = ground arith in
    rw yes (
      set_loop_never w dst value num ((i + 1) % 2 ^ w) fuel (set_byte mem (u64 (dst + i)) value)
        many (mod-lt (i + 1) (omega arith)))

pub copy_loop_never :
    (w dst src num i fuel : ℕ) (mem : Bytes)
    → 2 ^ w ≤ num
    → i < 2 ^ w
    → copy_loop w fuel dst src num i mem ≡ none
unfolding copy_loop
copy_loop_never w dst src num i zero mem many h =
    let yes : ltb i num ≡ true = ground arith in rw yes refl
copy_loop_never w dst src num i (suc fuel) mem many h =
    let yes : ltb i num ≡ true = ground arith in
    rw yes (
      copy_loop_never w dst src num ((i + 1) % 2 ^ w) fuel
        (set_byte mem (u64 (dst + i)) (mem (u64 (src + i)))) many (mod-lt (i + 1) (omega arith)))
