-- ===== src/Dev.antt =====
-- dev.c: the table of devices and the calls that go through it.
--
-- A device is the record that its driver fills in, a constructor for each `kdev_type`; the functions
-- behind its pointers change the state `World`. An `isr` may be null. A null or foreign pointer in
-- the table, which the code would follow, is `none`.
use pi_vos.Prelude.{ℕ, Option, none, some, List, leb, set, get_or, replicate, [], if◌then◌else◌}
use pi_vos.Status.{
  is_negative, ok, dev_out_of_bounds, dev_already_exists, dev_invalid, dev_generic_no_isr,
}

-- `KDEV_BUFFER_SIZE`
abbrev pub buffer_size : ℕ
buffer_size = 1024

-- What the drivers share: the state, the parameters of an interrupt, the dispatch function of an
-- interrupt controller, the action of a timer.
pub record Platform : Type 1 where
  pub World : Type 0
  pub Params : Type 0
  pub Dispatch : Type 0
  pub Action : Type 0

-- `struct kdev_io`, `kdev_gic` and `kdev_timer` without the parts that all devices have; `ctx` is
-- bound already, and a byte buffer is a list.
pub record IoOps (p : Platform) : Type 0 where
  pub write : List ℕ → ℕ → p.World → ℕ × p.World
  pub read : ℕ → p.World → ℕ × List ℕ × p.World
  pub pool_out : ℕ → p.World → ℕ × p.World
  pub pool_in : p.World → ℕ × Option ℕ × p.World

pub record GicOps (p : Platform) : Type 0 where
  pub register_irq : ℕ → ℕ → p.Params → p.World → Option (ℕ × p.World)
  pub enable_irq : ℕ → p.World → Option (ℕ × p.World)
  pub get_dispatch : p.Dispatch

pub record TimerOps (p : Platform) : Type 0 where
  pub set_action : p.Action → p.World → p.World

-- `enum kdev_type`, each with the functions of its kind
pub data Ops (p : Platform) : Type 0 where
  generic : Ops p
  io : IoOps p → Ops p
  gic : GicOps p → Ops p
  timer : TimerOps p → Ops p

-- `struct kdev_generic`, and what follows it
pub record Device (p : Platform) : Type 0 where
  pub isr : Option (p.World → p.World)
  pub ops : Ops p

abbrev pub Table : Platform → Type 0
Table p = List (Option (Device p))

unfoldable pub empty_table : (p : Platform) → Table p
empty_table p = replicate buffer_size none

module _ {p : Platform} where
  -- A negative `dev_id` passes the test; the code then reads before the table.
  unfoldable pub register : ℕ → Device p → Table p → Option (ℕ × Table p)
  register dev_id dev kdevs =
      if is_negative dev_id
      then none
      else if leb buffer_size dev_id
      then some (dev_out_of_bounds, kdevs)
      else elim (get_or kdevs dev_id none) [
        | some _ ↦ some (dev_already_exists, kdevs)
        | none ↦ some (dev_id, set kdevs dev_id (some dev))
      ]

  -- The device a call finds in the table.
  unfoldable pub device : Table p → ℕ → Option (Device p)
  device kdevs dev_id = get_or kdevs dev_id none

  unfoldable pub generic_isr : Table p → ℕ → p.World → Option (ℕ × p.World)
  unfolding device
  generic_isr kdevs dev_id w = elim (device kdevs dev_id) [
    | none ↦ none
    | some d ↦ elim d.isr [ none ↦ some (dev_generic_no_isr, w) | some isr ↦ some (ok, isr w) ]
  ]

  unfoldable pub io_write : Table p → ℕ → List ℕ → ℕ → p.World → Option (ℕ × p.World)
  unfolding device
  io_write kdevs dev_id src n w = elim (device kdevs dev_id) [
    | none ↦ none
    | some d ↦ elim d.ops [
      | io ops ↦ some (ops.write src n w)
      | generic ↦ some (dev_invalid, w)
      | gic _ ↦ some (dev_invalid, w)
      | timer _ ↦ some (dev_invalid, w)
    ]
  ]

  -- The list is what is written from `dst` on.
  unfoldable pub io_read : Table p → ℕ → ℕ → p.World → Option (ℕ × List ℕ × p.World)
  unfolding device
  io_read kdevs dev_id n w = elim (device kdevs dev_id) [
    | none ↦ none
    | some d ↦ elim d.ops [
      | io ops ↦ some (ops.read n w)
      | generic ↦ some (dev_invalid, [], w)
      | gic _ ↦ some (dev_invalid, [], w)
      | timer _ ↦ some (dev_invalid, [], w)
    ]
  ]

  unfoldable pub io_pool_out : Table p → ℕ → ℕ → p.World → Option (ℕ × p.World)
  unfolding device
  io_pool_out kdevs dev_id c w = elim (device kdevs dev_id) [
    | none ↦ none
    | some d ↦ elim d.ops [
      | io ops ↦ some (ops.pool_out c w)
      | generic ↦ some (dev_invalid, w)
      | gic _ ↦ some (dev_invalid, w)
      | timer _ ↦ some (dev_invalid, w)
    ]
  ]

  -- The byte is what goes through `c`.
  unfoldable pub io_pool_in : Table p → ℕ → p.World → Option (ℕ × Option ℕ × p.World)
  unfolding device
  io_pool_in kdevs dev_id w = elim (device kdevs dev_id) [
    | none ↦ none
    | some d ↦ elim d.ops [
      | io ops ↦ some (ops.pool_in w)
      | generic ↦ some (dev_invalid, none, w)
      | gic _ ↦ some (dev_invalid, none, w)
      | timer _ ↦ some (dev_invalid, none, w)
    ]
  ]

  unfoldable pub gic_register_irq : Table p → ℕ → ℕ → ℕ → p.Params → p.World → Option (ℕ × p.World)
  unfolding device
  gic_register_irq kdevs dev_id irq_id irq_dev_id params w = elim (device kdevs dev_id) [
    | none ↦ none
    | some d ↦ elim d.ops [
      | gic ops ↦ ops.register_irq irq_id irq_dev_id params w
      | generic ↦ some (dev_invalid, w)
      | io _ ↦ some (dev_invalid, w)
      | timer _ ↦ some (dev_invalid, w)
    ]
  ]

  unfoldable pub gic_enable_irq : Table p → ℕ → ℕ → p.World → Option (ℕ × p.World)
  unfolding device
  gic_enable_irq kdevs dev_id irq_id w = elim (device kdevs dev_id) [
    | none ↦ none
    | some d ↦ elim d.ops [
      | gic ops ↦ ops.enable_irq irq_id w
      | generic ↦ some (dev_invalid, w)
      | io _ ↦ some (dev_invalid, w)
      | timer _ ↦ some (dev_invalid, w)
    ]
  ]

  -- The inner option is the function pointer, null for a device of another kind.
  unfoldable pub gic_get_dispatch : Table p → ℕ → Option (Option p.Dispatch)
  unfolding device
  gic_get_dispatch kdevs dev_id = elim (device kdevs dev_id) [
    | none ↦ none
    | some d ↦ elim d.ops [
      | gic ops ↦ some (some ops.get_dispatch)
      | generic ↦ some none
      | io _ ↦ some none
      | timer _ ↦ some none
    ]
  ]

  unfoldable pub timer_set_action : Table p → ℕ → p.Action → p.World → Option (ℕ × p.World)
  unfolding device
  timer_set_action kdevs dev_id action w = elim (device kdevs dev_id) [
    | none ↦ none
    | some d ↦ elim d.ops [
      | timer ops ↦ some (ok, ops.set_action action w)
      | generic ↦ some (dev_invalid, w)
      | io _ ↦ some (dev_invalid, w)
      | gic _ ↦ some (dev_invalid, w)
    ]
  ]
