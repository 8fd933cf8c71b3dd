-- ===== src/Kernel/Setup/Devices.antt =====
-- main.c: what `setup_devices` leaves on empty tables.
mod Tests
use pi_vos.Prelude.{none, ℕ, ◌+◌, ◌*◌, ◌/◌, ◌%◌, ◌^◌, ◌≡◌, refl, some, set, ◌==◌, if◌then◌else◌}
use pi_vos.Status.{is_negative}
use pi_vos.Gic
use pi_vos.Gic.{Gic, Params, kdev_register_irq, kdev_enable_irq, set_at}
use pi_vos.Interrupt.{
  IntType, number, int_register, int_dispatch, cur_el_spn_irq, low_el_aarch64_irq,
}
use pi_vos.Dev
use pi_vos.Dev.{
  Table, Device, device, empty_table, gic_register_irq, gic_enable_irq, gic_get_dispatch,
}
use pi_vos.Kernel.Setup.{
  World, Dispatch, DispatchTab, Drivers, Machine, platform, irq_params, gic_kdev, register_dispatch,
  connect_irq, setup_irqs, register_then, register_devices, setup_devices, ◌>>=◌,
}

module _ {Rest Action : Type 0} (drivers : Drivers Rest Action) where
  -- The interrupt controller after an interrupt has been connected to a device.
  abbrev pub connected : ℕ → ℕ → Gic → Gic
  connected irq_id dev_id g =
      elim (kdev_register_irq irq_id dev_id irq_params g >>= λ (_, g1). kdev_enable_irq irq_id g1) [
        | none ↦ g
        | some (_, g2) ↦ g2
      ]

  abbrev three_devices : Table (platform Rest Action)
  three_devices =
      set
        (set (set (empty_table (platform Rest Action)) 0 (some (gic_kdev drivers))) 1
          (some drivers.timer))
        2 (some drivers.uart)

  abbrev pub after : World Rest → DispatchTab Rest → Machine Rest Action
  after w tab = record {
    world = record w { gic = connected 153 2 (connected 30 1 w.gic) };
    kdevs = three_devices;
    tab =
        int_register low_el_aarch64_irq drivers.irq_dispatch
          (int_register cur_el_spn_irq drivers.irq_dispatch tab);
  }

  registered :
      (w : World Rest) (tab : DispatchTab Rest)
      → register_devices drivers
          (record { world = w; kdevs = empty_table (platform Rest Action); tab = tab })
        ≡ some (2, after w tab)
  unfolding register_devices register_then Dev.register setup_irqs register_dispatch connect_irq
      gic_register_irq gic_enable_irq gic_get_dispatch device empty_table kdev_register_irq
      kdev_enable_irq
  registered w tab = refl

  pub found :
      (device three_devices 0 ≡ some (gic_kdev drivers))
      × (device three_devices 1 ≡ some drivers.timer)
      × (device three_devices 2 ≡ some drivers.uart)
  unfolding device empty_table
  found = (refl, refl, refl)

  pub setup_devices-after :
      (w w1 w2 w3 : World Rest) (tab : DispatchTab Rest)
      → drivers.uart_init w ≡ (0, w1)
      → drivers.gic_init w1 ≡ (0, w2)
      → drivers.timer_init w2 ≡ (0, w3)
      → setup_devices drivers
          (record { world = w; kdevs = empty_table (platform Rest Action); tab = tab })
        ≡ some (2, after w3 tab)
  unfolding setup_devices
  setup_devices-after w w1 w2 w3 tab u g t = rw (setup_devices, u, g, t) (registered w3 tab)

  -- The setup on empty tables, where the three drivers' initialisations succeed, registers the
  -- interrupt controller, the timer and the UART as the devices 0 to 2 and returns 2; interrupts from
  -- both exception levels are then dispatched by the controller, interrupt 30 belongs to the timer
  -- and 153 to the UART, and the enable bits of these two are written.
  pub setup_devices_lem :
      (w w1 w2 w3 : World Rest) (tab : DispatchTab Rest) (esr : ℕ) (w4 : World Rest)
      → drivers.uart_init w ≡ (0, w1)
      → drivers.gic_init w1 ≡ (0, w2)
      → drivers.timer_init w2 ≡ (0, w3)
      → (out : Machine Rest Action) × (setup_devices drivers
            (record { world = w; kdevs = empty_table (platform Rest Action); tab = tab })
          ≡ some (2, out))
        × (device out.kdevs 0 ≡ some (gic_kdev drivers))
        × (device out.kdevs 1 ≡ some drivers.timer)
        × (device out.kdevs 2 ≡ some drivers.uart)
        × (int_dispatch out.tab cur_el_spn_irq esr w4 ≡ some (drivers.irq_dispatch esr w4))
        × (int_dispatch out.tab low_el_aarch64_irq esr w4 ≡ some (drivers.irq_dispatch esr w4))
        × (out.world.gic.irq_devices 30 ≡ 1)
        × (out.world.gic.irq_devices 153 ≡ 2)
        × (out.world.gic.isenabler (30 / 32) ≡ 2 ^ (30 % 32))
        × (out.world.gic.isenabler (153 / 32) ≡ 2 ^ (153 % 32))
        × (out.world.rest ≡ w3.rest)
  unfolding int_dispatch int_register number kdev_register_irq kdev_enable_irq set_at
      Gic.set_int_priority Gic.set_int_target Gic.set_int_trigger
  setup_devices_lem w w1 w2 w3 tab esr w4 u g t = (
    after w3 tab,
    setup_devices-after w w1 w2 w3 tab u g t,
    found.0,
    found.1,
    found.2,
    refl,
    refl,
    refl,
    refl,
    refl,
    refl,
    refl,
  )
