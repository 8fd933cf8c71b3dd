-- ===== src/Kernel/Tests.antt =====
-- The write call, over services that return their first argument.
use pi_vos.Prelude.{ℕ, ◌+◌, ◌≡◌, some, none, [], ◌∷◌, arith, replicate}
use pi_vos.Word.{u16}
use pi_vos.Interrupt.{int_dispatch, low_el_aarch64_sync}
use pi_vos.Call.{buffer_size, dispatch}
use pi_vos.Kernel.{Services, Caller, unsupported, setup_syscalls}
use pi_vos.Kernel.Calls.{handler, setup_syscalls_lem}

abbrev echoes : Services
echoes = record {
  World = ℕ;
  io_read = λ dev dst n w. (dev, w);
  io_write = λ dev src n w. (n, w + n);
  io_pool_out = λ dev c w. (0, w + c);
  proc_start = λ prog rs w. (0, rs, w);
  proc_exit = λ rs w. (0, rs, w);
}

abbrev caller : Caller echoes
caller = (2 ∷ 4096 ∷ 5 ∷ [], 0)

setup_syscalls_lem_example :
    let (status, registered, kcalls) =
      setup_syscalls echoes (λ esr (n : ℕ). n + esr) (λ i. none) (replicate buffer_size none) in
    (status ≡ 4)
    × (int_dispatch registered low_el_aarch64_sync 2 5 ≡ some 7)
    × (dispatch (unsupported echoes) kcalls 2 caller ≡ some (handler echoes (u16 2) caller))
setup_syscalls_lem_example =
    setup_syscalls_lem echoes (λ esr (n : ℕ). n + esr) (λ i. none) 5 2 caller (omega arith)
