-- ===== src/Assert.antt =====
-- assert.c: `assert_check`, in a build with assertions.
--
-- `stack_bottom` and `stack_top` are symbols of the linker script, and `message` gives the characters
-- of the message by their index. The `while (1)` at the end is the outcome `halted`; the loop over the
-- message runs on fuel.
mod Tests
use pi_vos.Prelude.{
  ℕ, zero, suc, ◌+◌, ◌-◌, ◌*◌, ◌/◌, ◌%◌, ◌^◌, ◌≤◌, ◌<◌, ◌≡◌, ◌≢◌, refl, arith, true, false, ◌∙◌,
  min, Option, none, some, ◌⊎◌, inl, inr, ◌==◌, ◌||◌, if◌then◌else◌, ltb, ap, Bool-cases,
}
use pi_vos.Word.{u8, u32, u64, sub64}
use pi_vos.Bytes.{Bytes, set_byte}
use pi_vos.Bytes.Loops.{set_byte_same, set_byte_other, first_or}

pub data Outcome : Type 0 where
  returned : Outcome
  halted : Bytes → Outcome

-- `*(uint32_t *)addr = value`, the low byte first
unfoldable pub set_word32 : Bytes → ℕ → ℕ → Bytes
set_word32 mem addr value other =
    if other == addr
    then value % 256
    else if other == addr + 1
    then value / 256 % 256
    else if other == addr + 2
    then value / 256 / 256 % 256
    else if other == addr + 3
    then value / 256 / 256 / 256 % 256
    else mem other

-- The loop from `i` on: the index at its end, and memory.
unfoldable pub message_loop : (ℕ → ℕ) → ℕ → ℕ → ℕ → ℕ → Bytes → Option (ℕ × Bytes)
message_loop message base_addr max_length zero i mem =
    if (message i == 0) || (i == max_length) then some (i, mem) else none
message_loop message base_addr max_length (suc fuel) i mem =
    let rest =
      message_loop message base_addr max_length fuel (u32 (i + 1))
        (set_byte mem (u64 (base_addr + i + 4)) (message i)) in
    if (message i == 0) || (i == max_length) then some (i, mem) else rest

unfoldable pub assert_check : ℕ → ℕ → ℕ → ℕ → (ℕ → ℕ) → Bytes → Option Outcome
assert_check fuel stack_bottom stack_top condition_result message mem =
    let written : Option Outcome =
      elim (message_loop message stack_bottom (sub64 stack_top stack_bottom) fuel 0 mem) [
        | none ↦ none
        | some (i, mem1) ↦ some (halted (set_word32 mem1 stack_bottom i))
      ] in
    if condition_result == 0 then written else some returned

module _ (message : ℕ → ℕ) (base max count : ℕ) (small : count < 2 ^ 32) (inside : count ≤ max)
    (chars : (i : ℕ) → i < count → message i ≢ 0) (ends : (message count ≡ 0) ⊎ (count ≡ max))
    (fits : base + max + 4 ≤ 2 ^ 64) where
  abbrev IsWritten : ℕ → Bytes → Bytes → Type 0
  IsWritten i mem out =
      ((j : ℕ) → i ≤ j → j < count → out (base + 4 + j) ≡ u8 (message j))
      × ((addr : ℕ) → (addr < base + 4 + i) ⊎ (base + 4 + count ≤ addr) → out addr ≡ mem addr)

  message_loop_lem :
      (left i fuel : ℕ) (mem : Bytes)
      → i + left ≡ count
      → left ≤ fuel
      → (out : Bytes) × (message_loop message base max fuel i mem ≡ some (count, out))
        × IsWritten i mem out
  unfolding message_loop
  message_loop_lem zero i zero mem h enough =
      let at : i ≡ count = omega arith in
      let stop : ((message count == 0) || (count == max)) ≡ true = ground arith in
      (mem, rw (at, stop) refl, (λ j low high. absurd (omega arith), λ addr out. refl))
  message_loop_lem zero i (suc fuel) mem h enough =
      let at : i ≡ count = omega arith in
      let stop : ((message count == 0) || (count == max)) ≡ true = ground arith in
      (mem, rw (at, stop) refl, (λ j low high. absurd (omega arith), λ addr out. refl))
  message_loop_lem (suc left) i zero mem h enough = absurd (omega arith)
  message_loop_lem (suc left) i (suc fuel) mem h enough =
      let char : message i ≢ 0 = chars i (omega arith) in
      let on : ((message i == 0) || (i == max)) ≡ false = ground arith in
      let to : u64 (base + i + 4) ≡ base + 4 + i = omega arith in
      let next : u32 (i + 1) ≡ i + 1 = omega arith in
      let written : Bytes = set_byte mem (base + 4 + i) (message i) in
      let step : message_loop message base max (suc fuel) i mem
          ≡ message_loop message base max fuel (i + 1) written =
        rw (on, to, next) refl in
      let (out, run, is) = message_loop_lem left (i + 1) fuel written (omega arith) (omega arith) in
      let now : out (base + 4 + i) ≡ u8 (message i) =
        is.1 (base + 4 + i) (inl (omega arith)) ∙ set_byte_same mem (base + 4 + i) (message i) in
      (
        out,
        step ∙ run,
        (
          λ j low high.
              first_or i j (λ k. out (base + 4 + k) ≡ u8 (message k)) low now
                λ more. is.0 j more high,
          λ addr away.
              is.1 addr (omega arith)
              ∙ set_byte_other mem (base + 4 + i) (message i) addr (omega arith),
        ),
      )

word_lem :
    (mem : Bytes) (addr value : ℕ)
    → value < 2 ^ 32
    → let out = set_word32 mem addr value in
      out addr + 2 ^ 8 * out (addr + 1) + 2 ^ 16 * out (addr + 2) + 2 ^ 24 * out (addr + 3) ≡ value
unfolding set_word32
word_lem mem addr value h = ground arith

word_outside :
    (mem : Bytes) (addr value other : ℕ)
    → (other < addr) ⊎ (addr + 4 ≤ other)
    → set_word32 mem addr value other ≡ mem other
unfolding set_word32
word_outside mem addr value other h = ground arith

message_end :
    (message : ℕ → ℕ) (length max : ℕ)
    → message length ≡ 0
    → (message (min length max) ≡ 0) ⊎ (min length max ≡ max)
message_end message length max ends = elim (Bool-cases (ltb length max)) [
  | inl short ↦ let e : min length max ≡ length = ground arith in inl (ap message e ∙ ends)
  | inr long ↦ inr (ground arith)
]

halts :
    (message : ℕ → ℕ) (fuel bottom top count : ℕ) (mem out : Bytes)
    → message_loop message bottom (sub64 top bottom) fuel 0 mem ≡ some (count, out)
    → assert_check fuel bottom top 0 message mem ≡ some (halted (set_word32 out bottom count))
unfolding assert_check
halts message fuel bottom top count mem out run = rw (assert_check, run) refl

-- An assertion that fails, with a message of fewer than `2 ^ 32` characters and fuel for them, halts:
-- behind a word with their number stand the first characters of the message, as many as the stack
-- has bytes at most, no other byte is changed, and where the message is as long as the stack or
-- longer, four characters stand behind the top of the stack.
pub assert_check_lem :
    (message : ℕ → ℕ) (fuel stack_bottom stack_top length : ℕ) (mem : Bytes)
    → length < 2 ^ 32
    → length ≤ fuel
    → ((i : ℕ) → i < length → message i ≢ 0)
    → message length ≡ 0
    → stack_bottom + 4 ≤ stack_top
    → stack_top + 4 ≤ 2 ^ 64
    → let count = min length (stack_top - stack_bottom) in
      (out : Bytes) × (assert_check fuel stack_bottom stack_top 0 message mem ≡ some (halted out))
      × (out stack_bottom
            + 2 ^ 8 * out (stack_bottom + 1)
            + 2 ^ 16 * out (stack_bottom + 2)
            + 2 ^ 24 * out (stack_bottom + 3)
          ≡ count)
      × ((j : ℕ) → j < count → out (stack_bottom + 4 + j) ≡ u8 (message j))
      × ((addr : ℕ)
          → (addr < stack_bottom) ⊎ (stack_bottom + 4 + count ≤ addr)
          → out addr ≡ mem addr)
      × ((j : ℕ)
          → j < 4
          → stack_top - stack_bottom ≤ length
          → out (stack_top + j) ≡ u8 (message (stack_top - stack_bottom - 4 + j)))
unfolding assert_check
assert_check_lem message fuel bottom top length mem small enough chars ends room fits =
    let count : ℕ = min length (top - bottom) in
    let max : sub64 top bottom ≡ top - bottom = omega arith in
    let end : (message count ≡ 0) ⊎ (count ≡ top - bottom) =
      message_end message length (top - bottom) ends in
    let (out, run, is) =
      message_loop_lem message bottom (top - bottom) count (omega arith) (omega arith)
        (λ i h. chars i (omega arith)) end (omega arith) count 0 fuel mem (omega arith)
        (omega arith) in
    (
      set_word32 out bottom count,
      halts message fuel bottom top count mem out
          (ap (λ m. message_loop message bottom m fuel 0 mem) max ∙ run),
      word_lem out bottom count (omega arith),
      λ j h. word_outside out bottom count (bottom + 4 + j) (omega arith) ∙ is.0 j (omega arith) h,
      λ addr away. word_outside out bottom count addr (omega arith) ∙ is.1 addr (omega arith),
      λ j h long.
          let at : top + j ≡ bottom + 4 + (top - bottom - 4 + j) = omega arith in
          ap (set_word32 out bottom count) at
          ∙ (word_outside out bottom count (bottom + 4 + (top - bottom - 4 + j)) (omega arith)
              ∙ is.0 (top - bottom - 4 + j) (omega arith) (omega arith)),
    )
