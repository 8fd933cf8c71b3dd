-- ===== src/Kernel/Setup/Devices/Tests.antt =====
-- Drivers whose initialisations count, on registers that hold nothing.
use pi_vos.Prelude.{ℕ, ◌+◌, ◌/◌, ◌%◌, ◌^◌, ◌≡◌, refl, some, none}
use pi_vos.Interrupt.{int_dispatch, cur_el_spn_irq, low_el_aarch64_irq}
use pi_vos.Dev.{device, empty_table, timer, generic}
use pi_vos.Kernel.Setup.{World, Drivers, Machine, platform, gic_kdev, setup_devices}
use pi_vos.Kernel.Setup.Devices.{setup_devices_lem}

abbrev blank : ℕ → World ℕ
blank n = record {
  gic = record {
    isenabler = λ i. 0;
    ipriorityr = λ i. 0;
    itargetsr = λ i. 0;
    igroupr = λ i. 0;
    icfgr = λ i. 0;
    irq_devices = λ i. 0;
  };
  rest = n;
}

abbrev counting : Drivers ℕ ℕ
counting = record {
  uart_init = λ w. (0, record w { rest = w.rest + 1 });
  gic_init = λ w. (0, record w { rest = w.rest + 1 });
  timer_init = λ w. (0, record w { rest = w.rest + 1 });
  irq_dispatch = λ esr w. record w { rest = w.rest + 100 };
  timer = record { isr = none; ops = timer (record { set_action = λ n w. w }) };
  uart = record { isr = none; ops = generic };
}

setup_devices_lem_example :
    (out : Machine ℕ ℕ) × (setup_devices counting
        (record { world = blank 0; kdevs = empty_table (platform ℕ ℕ); tab = λ i. none })
      ≡ some (2, out))
    × (device out.kdevs 0 ≡ some (gic_kdev counting))
    × (device out.kdevs 1 ≡ some counting.timer)
    × (device out.kdevs 2 ≡ some counting.uart)
    × (int_dispatch out.tab cur_el_spn_irq 5 (blank 7) ≡ some (counting.irq_dispatch 5 (blank 7)))
    × (int_dispatch out.tab low_el_aarch64_irq 5 (blank 7)
        ≡ some (counting.irq_dispatch 5 (blank 7)))
    × (out.world.gic.irq_devices 30 ≡ 1)
    × (out.world.gic.irq_devices 153 ≡ 2)
    × (out.world.gic.isenabler (30 / 32) ≡ 2 ^ (30 % 32))
    × (out.world.gic.isenabler (153 / 32) ≡ 2 ^ (153 % 32))
    × (out.world.rest ≡ (blank 3).rest)
setup_devices_lem_example =
    setup_devices_lem counting (blank 0) (blank 1) (blank 2) (blank 3) (λ i. none) 5 (blank 7) refl
      refl refl
