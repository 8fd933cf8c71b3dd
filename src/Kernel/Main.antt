-- ===== src/Kernel/Main.antt =====
-- main.c: `kernel_main`, over the setup of the devices and of the system calls.
--
-- What the other parts do to the state is the parameter `parts`. `none` is a fault of the setup.
pub mod Boot
use pi_vos.Prelude.{ℕ, ◌*◌, ◌^◌, Option, none, some}
use pi_vos.Interrupt.{int_register, init_dispatch_tab, low_el_aarch64_sync}
use pi_vos.Call
use pi_vos.Dev.{timer_set_action}
use pi_vos.Kernel.{Services, Caller, setup_syscalls}
use pi_vos.Kernel.Setup.{World, Dispatch, Drivers, Machine, setup_devices, ◌>>=◌}

-- `memory_init`, `irq_lock`, `irq_unlock`, `kproc_exec`, `kcall_dispatch` and `test_action`
pub record Parts (Rest Action : Type 0) : Type 0 where
  pub memory_init : ℕ → World Rest → World Rest
  pub lock_irqs : World Rest → ℕ × World Rest
  pub unlock_irqs : ℕ → World Rest → World Rest
  pub exec : ℕ → World Rest → World Rest
  pub kcall_dispatch : Dispatch Rest
  pub test_action : Action

module _ {Rest Action : Type 0} (drivers : Drivers Rest Action) (parts : Parts Rest Action)
    (services : Services) where
  abbrev pub KernelState : Type 0
  KernelState = Machine Rest Action × Call.Table (Caller services)

  -- The statuses of the two setups are not looked at.
  unfoldable pub kernel_main : KernelState → Option KernelState
  unfolding setup_syscalls
  kernel_main (m, kcalls) =
      let (irq_key, w1) = parts.lock_irqs (parts.memory_init (4 * 2 ^ 30) m.world) in
      setup_devices drivers (record m { world = w1; tab = init_dispatch_tab m.tab }) >>= λ (_, m1).
      let (_, tab, kcalls1) = setup_syscalls services parts.kcall_dispatch m1.tab kcalls in
      timer_set_action m1.kdevs 1 parts.test_action m1.world >>= λ (_, w2).
      let w3 = parts.exec 0 (parts.unlock_irqs irq_key w2) in
      some (record m1 { world = w3; tab = tab }, kcalls1)
