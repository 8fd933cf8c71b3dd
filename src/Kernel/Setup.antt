-- ===== src/Kernel/Setup.antt =====
-- main.c: `setup_devices`: the three devices, their registration, and their interrupts.
--
-- The initialisations of the drivers change the state `World`, which holds the interrupt controller's
-- registers and the rest. `none` is a null pointer that is followed.
pub mod Devices
use pi_vos.Prelude.{ℕ, Option, none, some, ◌==◌, ltb, if◌then◌else◌}
use pi_vos.Status.{is_negative}
use pi_vos.Gic
use pi_vos.Gic.{Gic, Params}
use pi_vos.Interrupt.{IntType, number, int_register, cur_el_spn_irq, low_el_aarch64_irq}
use pi_vos.Dev
use pi_vos.Dev.{
  Platform, Table, Device, GicOps, gic, gic_register_irq, gic_enable_irq, gic_get_dispatch,
}

pub record World (Rest : Type 0) : Type 0 where
  pub gic : Gic
  pub rest : Rest

abbrev pub Dispatch : Type 0 → Type 0
Dispatch Rest = ℕ → World Rest → World Rest

abbrev pub platform : Type 0 → Type 0 → Platform
platform Rest Action = record {
  World = World Rest;
  Params = Params;
  Dispatch = Dispatch Rest;
  Action = Action;
}

abbrev pub DispatchTab : Type 0 → Type 0
DispatchTab Rest = ℕ → Option (Dispatch Rest)

-- `dev_uart_init(0)`, `dev_gicv2_init()` and `dev_generic_timer_init(4)`, and what the drivers offer
pub record Drivers (Rest Action : Type 0) : Type 0 where
  pub uart_init : World Rest → ℕ × World Rest
  pub gic_init : World Rest → ℕ × World Rest
  pub timer_init : World Rest → ℕ × World Rest
  pub irq_dispatch : Dispatch Rest
  pub timer : Device (platform Rest Action)
  pub uart : Device (platform Rest Action)

-- The state that the setup changes.
pub record Machine (Rest Action : Type 0) : Type 0 where
  pub world : World Rest
  pub kdevs : Table (platform Rest Action)
  pub tab : DispatchTab Rest

-- `gicv2_timer_params` and `gicv2_uart_params`
abbrev pub irq_params : Params
irq_params = record { priority = 0; cpu = 1; trigger = 2 }

infixl 5 ◌>>=◌
abbrev pub ◌>>=◌ : {A B : Type 0} → Option A → (A → Option B) → Option B
none >>= k = none
some a >>= k = k a

module _ {Rest Action : Type 0} (drivers : Drivers Rest Action) where
  -- `gic_kdev`, whose `isr` is 0
  abbrev pub gic_kdev : Device (platform Rest Action)
  gic_kdev = record {
    isr = none;
    ops = gic (record {
      register_irq = λ irq_id irq_dev_id params w.
          Gic.kdev_register_irq irq_id irq_dev_id params w.gic >>= λ (status, g).
          some (status, record w { gic = g });
      enable_irq = λ irq_id w.
          Gic.kdev_enable_irq irq_id w.gic >>= λ (status, g). some (status, record w { gic = g });
      get_dispatch = drivers.irq_dispatch;
    });
  }

  -- `int_register(type, kdev_gic_get_dispatch(0))`
  unfoldable pub register_dispatch : IntType → Machine Rest Action → Option (Machine Rest Action)
  unfolding int_register number
  register_dispatch type m = gic_get_dispatch m.kdevs 0 >>= λ fn. some (record m {
    tab = elim fn [
      | none ↦ λ i. if i == number type then none else m.tab i
      | some dispatch ↦ int_register type dispatch m.tab
    ];
  })

  -- `kdev_gic_register_irq(0, irq_id, dev_id, ...)` and `kdev_gic_enable_irq(0, irq_id)`
  unfoldable pub connect_irq : ℕ → ℕ → Machine Rest Action → Option (Machine Rest Action)
  connect_irq irq_id dev_id m =
      gic_register_irq m.kdevs 0 irq_id dev_id irq_params m.world >>= λ (_, w1).
      gic_enable_irq m.kdevs 0 irq_id w1 >>= λ (_, w2). some (record m { world = w2 })

  -- The interrupts, once the devices are registered.
  unfoldable pub setup_irqs : ℕ → Machine Rest Action → Option (ℕ × Machine Rest Action)
  unfolding register_dispatch connect_irq
  setup_irqs status m = register_dispatch cur_el_spn_irq m >>= λ m1.
      register_dispatch low_el_aarch64_irq m1 >>= λ m2.
      connect_irq 30 1 m2 >>= λ m3. connect_irq 153 2 m3 >>= λ m4. some (status, m4)

  -- One registration, then what follows it unless the status is negative.
  unfoldable pub register_then :
      ℕ
      → Device (platform Rest Action)
      → (ℕ → Machine Rest Action → Option (ℕ × Machine Rest Action))
      → Machine Rest Action
      → Option (ℕ × Machine Rest Action)
  register_then dev_id dev next m = Dev.register dev_id dev m.kdevs >>= λ (status, kdevs).
      let m1 : Machine Rest Action = record m { kdevs = kdevs } in
      let rest = next status m1 in if is_negative status then some (status, m1) else rest

  unfoldable pub register_devices : Machine Rest Action → Option (ℕ × Machine Rest Action)
  unfolding register_then setup_irqs
  register_devices m =
      register_then 0 gic_kdev
        (λ s0. register_then 1 drivers.timer (λ s1. register_then 2 drivers.uart setup_irqs)) m

  -- The initialisations end the setup with their status unless it is 0.
  unfoldable pub setup_devices : Machine Rest Action → Option (ℕ × Machine Rest Action)
  setup_devices m =
      let (uart_status, w1) = drivers.uart_init m.world in
      let (gic_status, w2) = drivers.gic_init w1 in
      let (timer_status, w3) = drivers.timer_init w2 in
      let registered = register_devices (record m { world = w3 }) in
      if uart_status == 0
      then (if gic_status == 0
          then (if timer_status == 0
              then registered
              else some (timer_status, record m { world = w3 }))
          else some (gic_status, record m { world = w2 }))
      else some (uart_status, record m { world = w1 })
