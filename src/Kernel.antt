-- ===== src/Kernel.antt =====
-- main.c: the system calls that the kernel sets up, with their handlers of call/dev.c and
-- call/proc.c.
--
-- The devices and the processes are parameters, each call of them a change of the machine with its
-- status; `rs` are the saved registers. A pointer in a register is passed on as its number.
mod Tests
pub mod Calls
pub mod Setup
pub mod Main
use pi_vos.Prelude.{ℕ, ◌+◌, ◌-◌, ◌^◌, Bool, List, Option, ltb, leb, get_or, set, if◌then◌else◌}
use pi_vos.Word.{u8, u32}
use pi_vos.Status.{is_negative}
use pi_vos.Interrupt.{number, int_register, low_el_aarch64_sync}
use pi_vos.Call
use pi_vos.Call.{Table, register, dispatch}

-- What the handlers call. `proc_start` and `proc_exit` get the registers and may change them.
pub record Services : Type 1 where
  pub World : Type 0
  pub io_read : ℕ → ℕ → ℕ → World → ℕ × World
  pub io_write : ℕ → ℕ → ℕ → World → ℕ × World
  pub io_pool_out : ℕ → ℕ → World → ℕ × World
  pub proc_start : ℕ → List ℕ → World → ℕ × List ℕ × World
  pub proc_exit : List ℕ → World → ℕ × List ℕ × World

-- `(int64_t)status` of an `int32_t`, as a 64-bit word
unfoldable pub sign_extend : ℕ → ℕ
sign_extend status = if is_negative status then status + (2 ^ 64 - 2 ^ 32) else status

module _ (services : Services) where
  abbrev pub Caller : Type 0
  Caller = List ℕ × services.World

  -- `rs[0] = status`
  unfoldable pub returning : ℕ → List ℕ → services.World → Caller
  unfolding sign_extend
  returning status rs w = (set rs 0 (sign_extend status), w)

  unfoldable pub io_read : Caller → Caller
  unfolding returning
  io_read (rs, w) =
      let (status, w') =
        services.io_read (u32 (get_or rs 0 0)) (get_or rs 1 0) (u32 (get_or rs 2 0)) w in
      returning status rs w'

  unfoldable pub io_write : Caller → Caller
  unfolding returning
  io_write (rs, w) =
      let (status, w') =
        services.io_write (u32 (get_or rs 0 0)) (get_or rs 1 0) (u32 (get_or rs 2 0)) w in
      returning status rs w'

  unfoldable pub io_poll_out : Caller → Caller
  unfolding returning
  io_poll_out (rs, w) =
      let (status, w') = services.io_pool_out (u32 (get_or rs 0 0)) (u8 (get_or rs 1 0)) w in
      returning status rs w'

  unfoldable pub proc_start : Caller → Caller
  unfolding returning
  proc_start (rs, w) =
      let (status, rs', w') = services.proc_start (u32 (get_or rs 0 0)) rs w in
      returning status rs' w'

  unfoldable pub proc_exit : Caller → Caller
  unfolding returning
  proc_exit (rs, w) = let (status, rs', w') = services.proc_exit rs w in returning status rs' w'

  -- `rs[0] = -1`
  unfoldable pub unsupported : Caller → Caller
  unsupported (rs, w) = (set rs 0 (2 ^ 64 - 1), w)

  -- One registration of `setup_syscalls`, which goes on unless the status is negative.
  abbrev setup_call : ℕ → (Caller → Caller) → ℕ × Table Caller → ℕ × Table Caller
  setup_call id call (status, kcalls) =
      if is_negative status then (status, kcalls) else register id call kcalls

  -- The registrations of `setup_syscalls`, with the status that it returns.
  unfoldable pub register_calls : Table Caller → ℕ × Table Caller
  unfolding proc_exit proc_start io_write io_read io_poll_out
  register_calls kcalls = setup_call 4 io_poll_out (
      setup_call 3 io_read
        (setup_call 2 io_write (setup_call 1 proc_start (setup_call 0 proc_exit (0, kcalls)))))

  unfoldable pub setup_syscalls :
      {World : Type 0}
      → (ℕ → World → World)
      → (ℕ → Option (ℕ → World → World))
      → Table Caller
      → ℕ × (ℕ → Option (ℕ → World → World)) × Table Caller
  unfolding int_register number register_calls
  setup_syscalls kcall_dispatch tab kcalls =
      let registered = int_register low_el_aarch64_sync kcall_dispatch tab in
      let (status, kcalls1) = register_calls kcalls in (status, registered, kcalls1)
