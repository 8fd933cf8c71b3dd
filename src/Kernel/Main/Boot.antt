-- ===== src/Kernel/Main/Boot.antt =====
-- main.c: what `kernel_main` leaves, on empty tables.
mod Tests
use pi_vos.Prelude.{ℕ, ◌+◌, ◌*◌, ◌^◌, ◌≡◌, refl, Option, none, some, replicate}
use pi_vos.Interrupt.{
  IntType, number, int_register, int_dispatch, init_dispatch_tab, not_implemented_dispatch,
  cur_el_sp0_sync, cur_el_sp0_irq, cur_el_sp0_fiq, cur_el_sp0_serror, cur_el_spn_sync,
  cur_el_spn_irq, cur_el_spn_fiq, cur_el_spn_serror, low_el_aarch64_sync, low_el_aarch64_irq,
  low_el_aarch64_fiq, low_el_aarch64_serror, low_el_aarch32_sync, low_el_aarch32_irq,
  low_el_aarch32_fiq, low_el_aarch32_serror,
}
use pi_vos.Call
use pi_vos.Dev.{Device, TimerOps, timer, timer_set_action, empty_table, device}
use pi_vos.Kernel.{Services, Caller, setup_syscalls}
use pi_vos.Kernel.Setup.{World, DispatchTab, Drivers, Machine, platform, ◌>>=◌}
use pi_vos.Kernel.Setup.Devices.{after, connected, found, setup_devices-after}
use pi_vos.Kernel.Main.{Parts, KernelState, kernel_main}

module _ {Rest Action : Type 0} (drivers : Drivers Rest Action) (parts : Parts Rest Action)
    (services : Services) where
  -- What an exception of a kind is meant to run: the controller's dispatch for interrupts in the
  -- kernel and in programs, the system calls for programs, and nothing for the others.
  abbrev pub meant : IntType → ℕ → World Rest → World Rest
  meant cur_el_spn_irq = drivers.irq_dispatch
  meant low_el_aarch64_irq = drivers.irq_dispatch
  meant low_el_aarch64_sync = parts.kcall_dispatch
  meant cur_el_sp0_sync = λ esr w. w
  meant cur_el_sp0_irq = λ esr w. w
  meant cur_el_sp0_fiq = λ esr w. w
  meant cur_el_sp0_serror = λ esr w. w
  meant cur_el_spn_sync = λ esr w. w
  meant cur_el_spn_fiq = λ esr w. w
  meant cur_el_spn_serror = λ esr w. w
  meant low_el_aarch64_fiq = λ esr w. w
  meant low_el_aarch64_serror = λ esr w. w
  meant low_el_aarch32_sync = λ esr w. w
  meant low_el_aarch32_irq = λ esr w. w
  meant low_el_aarch32_fiq = λ esr w. w
  meant low_el_aarch32_serror = λ esr w. w

  abbrev final_tab : DispatchTab Rest → World Rest → DispatchTab Rest
  final_tab tab w =
      int_register low_el_aarch64_sync parts.kcall_dispatch
        (after drivers w (init_dispatch_tab tab)).tab

  dispatches :
      (tab : DispatchTab Rest) (w : World Rest) (type : IntType) (esr : ℕ) (w1 : World Rest)
      → int_dispatch (final_tab tab w) type esr w1 ≡ some (meant type esr w1)
  unfolding int_dispatch int_register init_dispatch_tab not_implemented_dispatch number
  dispatches tab w cur_el_sp0_sync esr w1 = refl
  dispatches tab w cur_el_sp0_irq esr w1 = refl
  dispatches tab w cur_el_sp0_fiq esr w1 = refl
  dispatches tab w cur_el_sp0_serror esr w1 = refl
  dispatches tab w cur_el_spn_sync esr w1 = refl
  dispatches tab w cur_el_spn_irq esr w1 = refl
  dispatches tab w cur_el_spn_fiq esr w1 = refl
  dispatches tab w cur_el_spn_serror esr w1 = refl
  dispatches tab w low_el_aarch64_sync esr w1 = refl
  dispatches tab w low_el_aarch64_irq esr w1 = refl
  dispatches tab w low_el_aarch64_fiq esr w1 = refl
  dispatches tab w low_el_aarch64_serror esr w1 = refl
  dispatches tab w low_el_aarch32_sync esr w1 = refl
  dispatches tab w low_el_aarch32_irq esr w1 = refl
  dispatches tab w low_el_aarch32_fiq esr w1 = refl
  dispatches tab w low_el_aarch32_serror esr w1 = refl

  -- The timer of the table takes the action.
  takes_action :
      (w w1 : World Rest) (tab : DispatchTab Rest) (ops : TimerOps (platform Rest Action))
      (isr : Option (World Rest → World Rest))
      → drivers.timer ≡ record { isr = isr; ops = timer ops }
      → timer_set_action (after drivers w tab).kdevs 1 parts.test_action w1
        ≡ some (0, ops.set_action parts.test_action w1)
  unfolding timer_set_action
  takes_action w w1 tab ops isr e = rw (timer_set_action, (found drivers).1, e) refl

  -- The kernel, started on empty tables with drivers whose initialisations succeed and a timer for a
  -- timer, comes up: with four gigabytes of memory it masks interrupts, sets up the devices, gives
  -- the timer its action, lets interrupts through as they were, and only then runs program 0; every
  -- exception is dispatched as it is meant to be, and the system calls are those of their setup.
  pub kernel_main_lem :
      (w w0 w1 w2 w3 : World Rest) (key : ℕ) (tab : DispatchTab Rest)
      (ops : TimerOps (platform Rest Action)) (isr : Option (World Rest → World Rest))
      (type : IntType) (esr : ℕ) (w4 : World Rest)
      → parts.lock_irqs (parts.memory_init (2 ^ 32) w) ≡ (key, w0)
      → drivers.uart_init w0 ≡ (0, w1)
      → drivers.gic_init w1 ≡ (0, w2)
      → drivers.timer_init w2 ≡ (0, w3)
      → drivers.timer ≡ record { isr = isr; ops = timer ops }
      → let start : Machine Rest Action = (record {
        world = w;
        kdevs = empty_table (platform Rest Action);
        tab = tab;
      }) in
        let kcalls = replicate Call.buffer_size none in
        let ready : World Rest = (record w3 {
          gic = connected drivers 153 2 (connected drivers 30 1 w3.gic);
        }) in
        (out : Machine Rest Action) × (kernel_main drivers parts services (start, kcalls)
          ≡ some (out, (setup_syscalls services parts.kcall_dispatch tab kcalls).2))
        × (out.world
            ≡ parts.exec 0 (parts.unlock_irqs key (ops.set_action parts.test_action ready)))
        × (int_dispatch out.tab type esr w4 ≡ some (meant type esr w4))
  unfolding kernel_main setup_syscalls
  kernel_main_lem w w0 w1 w2 w3 key tab ops isr type esr w4 l u g t e =
      let ready : World Rest = record w3 {
        gic = connected drivers 153 2 (connected drivers 30 1 w3.gic);
      } in
      (
        record {
          world = parts.exec 0 (parts.unlock_irqs key (ops.set_action parts.test_action ready));
          kdevs = (after drivers w3 (init_dispatch_tab tab)).kdevs;
          tab = final_tab tab w3;
        },
        rw
            (
              kernel_main,
              l,
              setup_devices-after drivers w0 w1 w2 w3 (init_dispatch_tab tab) u g t,
              takes_action w3 ready (init_dispatch_tab tab) ops isr e,
            )
            refl,
        refl,
        dispatches tab w3 type esr w4,
      )
