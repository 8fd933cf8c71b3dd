-- ===== src/Kernel/Calls.antt =====
-- main.c: which handler a system call reaches.
use pi_vos.Prelude.{
  ℕ, zero, suc, ◌<◌, ◌≡◌, refl, Option, some, none, replicate, get_or, get_or-replicate, ◌∙◌,
}
use pi_vos.Word.{u16}
use pi_vos.Call.{Table, register, dispatch, buffer_size}
use pi_vos.Call.Lookup.{dispatch_entry}
use pi_vos.Kernel.{
  Services, Caller, io_read, io_write, io_poll_out, proc_start, proc_exit, unsupported,
  setup_syscalls, register_calls,
}
use pi_vos.Interrupt.{number, int_register, int_dispatch, low_el_aarch64_sync}

-- The handler that a number is meant for.
abbrev pub handler : (services : Services) → ℕ → Caller services → Caller services
handler services zero = proc_exit services
handler services (suc zero) = proc_start services
handler services (suc (suc zero)) = io_write services
handler services (suc (suc (suc zero))) = io_read services
handler services (suc (suc (suc (suc zero)))) = io_poll_out services
handler services (suc (suc (suc (suc (suc n))))) = unsupported services

module _ (services : Services) (caller : Caller services) where
  -- The table after the setup.
  table : Table (Caller services)
  table = (register_calls services (replicate buffer_size none)).1

  -- What its entry `n` runs.
  runs :
      (n : ℕ)
      → elim (get_or table n none) as (λ _. Option (Caller services)) [
        | none ↦ some (unsupported services caller)
        | some call ↦ some (call caller)
      ]
        ≡ some (handler services n caller)
  unfolding table register_calls register
  runs zero = refl
  runs (suc zero) = refl
  runs (suc (suc zero)) = refl
  runs (suc (suc (suc zero))) = refl
  runs (suc (suc (suc (suc zero)))) = refl
  runs (suc (suc (suc (suc (suc n))))) =
      rw (get_or-replicate {A = Option (Caller services → Caller services)} 1019 n none)

-- The setup on an empty table succeeds; after it system calls from the lower exception level are
-- dispatched by `kcall_dispatch`, the system calls 0 to 4 run the exit and the start
-- of a process and the write, the read and the polled write of a device, and every other number
-- below 1024 is refused as unsupported.
pub setup_syscalls_lem :
    (services : Services) {World : Type 0} (kcall_dispatch : ℕ → World → World)
    (tab : ℕ → Option (ℕ → World → World)) (w : World) (esr : ℕ) (caller : Caller services)
    → u16 esr < buffer_size
    → let (status, registered, kcalls) =
        setup_syscalls services kcall_dispatch tab (replicate buffer_size none) in
      (status ≡ 4)
      × (int_dispatch registered low_el_aarch64_sync esr w ≡ some (kcall_dispatch esr w))
      × (dispatch (unsupported services) kcalls esr caller
          ≡ some (handler services (u16 esr) caller))
unfolding setup_syscalls int_dispatch int_register number register_calls register table
setup_syscalls_lem services kcall_dispatch tab w esr caller h = (
  refl,
  refl,
  dispatch_entry esr (unsupported services) (table services caller) caller refl h
      ∙ runs services caller (u16 esr),
)
