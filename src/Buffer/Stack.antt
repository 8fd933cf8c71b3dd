-- ===== src/Buffer/Stack.antt =====
-- include/kernel/buffer/stack.h. Addresses are numbers, and 0 is the null pointer.
pub mod Cells
use pi_vos.Prelude.{ℕ, ◌+◌, ◌*◌, ◌-◌, ◌^◌, ◌≤◌, ◌<◌, ◌≡◌, Bool, ◌==◌, ltb, if◌then◌else◌, arith}
use pi_vos.Word.{u32, u64, sub32}

-- `struct kbuffer_stack`
pub record Stack : Type 0 where
  pub buffer : ℕ
  pub capacity : ℕ
  pub len : ℕ
  pub align : ℕ

-- `KBUFFER_STACK_INIT`
unfoldable pub init : ℕ → ℕ → ℕ → Stack
init capacity buffer align = record { buffer = buffer; capacity = capacity; len = 0; align = align }

unfoldable pub full : Stack → Bool
full stack = stack.len == stack.capacity

unfoldable pub peek : Stack → ℕ
peek stack =
    if stack.len == 0 then 0 else u64 (stack.buffer + u32 (sub32 stack.len 1 * stack.align))

unfoldable pub alloc : Stack → ℕ × Stack
unfolding full
alloc stack =
    if full stack
    then (0, stack)
    else let grown = (record stack { len = u32 (stack.len + 1) }) in (peek grown, grown)

unfoldable pub free : Stack → Stack
free stack = if ltb 0 stack.len then record stack { len = sub32 stack.len 1 } else stack

pub record IsValid (stack : Stack) : Type 0 where
  pub len_in : stack.len ≤ stack.capacity
  pub align_pos : 0 < stack.align
  pub cells : stack.capacity * stack.align < 2 ^ 32
  pub not_null : 0 < stack.buffer
  pub no_wrap : stack.buffer + stack.capacity * stack.align < 2 ^ 64
