-- ===== src/Kernel/Main/Boot/Tests.antt =====
-- A kernel whose state counts what is done to it.
use pi_vos.Prelude.{ℕ, ◌+◌, ◌≡◌, refl, some, none, replicate}
use pi_vos.Interrupt.{int_dispatch, low_el_aarch64_irq}
use pi_vos.Call
use pi_vos.Dev.{TimerOps, empty_table, timer, generic}
use pi_vos.Kernel.{Services, setup_syscalls}
use pi_vos.Kernel.Setup.{World, Drivers, Machine, platform}
use pi_vos.Kernel.Setup.Devices.{connected}
use pi_vos.Kernel.Main.{Parts, kernel_main}
use pi_vos.Kernel.Main.Boot.{meant, kernel_main_lem}

abbrev blank : ℕ → World ℕ
blank n = record {
  gic = record {
    isenabler = λ i. 0;
    ipriorityr = λ i. 0;
    itargetsr = λ i. 0;
    igroupr = λ i. 0;
    icfgr = λ i. 0;
    irq_devices = λ i. 0;
  };
  rest = n;
}

abbrev adds : TimerOps (platform ℕ ℕ)
adds = record { set_action = λ n w. record w { rest = w.rest + n } }

abbrev counting : Drivers ℕ ℕ
counting = record {
  uart_init = λ w. (0, record w { rest = w.rest + 1 });
  gic_init = λ w. (0, record w { rest = w.rest + 1 });
  timer_init = λ w. (0, record w { rest = w.rest + 1 });
  irq_dispatch = λ esr w. record w { rest = w.rest + 100 };
  timer = record { isr = none; ops = timer adds };
  uart = record { isr = none; ops = generic };
}

abbrev steps : Parts ℕ ℕ
steps = record {
  memory_init = λ size w. record w { rest = w.rest + 10 };
  lock_irqs = λ w. (5, w);
  unlock_irqs = λ key w. record w { rest = w.rest + key };
  exec = λ program w. record w { rest = w.rest + 1000 };
  kcall_dispatch = λ esr w. w;
  test_action = 7;
}

abbrev silent : Services
silent = record {
  World = ℕ;
  io_read = λ dev dst n w. (0, w);
  io_write = λ dev src n w. (0, w);
  io_pool_out = λ dev c w. (0, w);
  proc_start = λ prog rs w. (0, rs, w);
  proc_exit = λ rs w. (0, rs, w);
}

kernel_main_lem_example :
    let kcalls = replicate Call.buffer_size none in
    let ready : World ℕ = (record (blank 13) {
      gic = connected counting 153 2 (connected counting 30 1 (blank 13).gic);
    }) in
    (out : Machine ℕ ℕ) × (kernel_main counting steps silent
        (record { world = blank 0; kdevs = empty_table (platform ℕ ℕ); tab = λ i. none }, kcalls)
      ≡ some (out, (setup_syscalls silent steps.kcall_dispatch (λ i. none) kcalls).2))
    × (out.world ≡ steps.exec 0 (steps.unlock_irqs 5 (adds.set_action steps.test_action ready)))
    × (int_dispatch out.tab low_el_aarch64_irq 3 (blank 4)
        ≡ some (meant counting steps silent low_el_aarch64_irq 3 (blank 4)))
kernel_main_lem_example =
    kernel_main_lem counting steps silent (blank 0) (blank 10) (blank 11) (blank 12) (blank 13) 5
      (λ i. none) adds none low_el_aarch64_irq 3 (blank 4) refl refl refl refl refl
