-- ===== src/Gic.antt =====
-- dev/gicv2.c: the registers of the interrupt distributor that the driver sets up.
--
-- Each array of registers is a function from its index to the 32-bit word, with the bounds of the
-- arrays in the two operations that are called from outside the driver; `ISENABLER` holds the word
-- that was written last, which the device takes as the set of interrupts to enable.
pub mod Lanes
pub mod Reg
pub mod Cpu
mod Tests
use pi_vos.Prelude.{
  ℕ, ◌+◌, ◌-◌, ◌*◌, ◌/◌, ◌%◌, ◌^◌, bit_and, bit_or, ◌==◌, if◌then◌else◌, Option, none, some, ltb,
}
use pi_vos.Word.{u32}
use pi_vos.Status.{ok}

-- The arrays of `gicv2->GICD`, and `irq_devices`
pub record Gic : Type 0 where
  pub isenabler : ℕ → ℕ
  pub ipriorityr : ℕ → ℕ
  pub itargetsr : ℕ → ℕ
  pub igroupr : ℕ → ℕ
  pub icfgr : ℕ → ℕ
  pub irq_devices : ℕ → ℕ

-- `struct dev_gicv2_params`
pub record Params : Type 0 where
  pub priority : ℕ
  pub cpu : ℕ
  pub trigger : ℕ

-- `array[idx] = value`
unfoldable pub set_at : (ℕ → ℕ) → ℕ → ℕ → ℕ → ℕ
set_at array idx value i = if i == idx then value else array i

-- `(bits & ~(mask << shift)) | (value << shift)` on `uint32_t`
unfoldable pub with_lane : ℕ → ℕ → ℕ → ℕ → ℕ
with_lane bits mask shift value =
    bit_or (bit_and bits (2 ^ 32 - 1 - u32 (mask * 2 ^ shift))) (u32 (value * 2 ^ shift))

unfoldable pub set_int_priority : ℕ → ℕ → Gic → Gic
unfolding with_lane set_at
set_int_priority id priority g =
    let reg = id / 4 in
    let new_val = with_lane (g.ipriorityr reg) 0xFF (id % 4 * 8) priority in
    record g { ipriorityr = set_at g.ipriorityr reg new_val }

unfoldable pub set_int_target : ℕ → ℕ → Gic → Gic
unfolding with_lane set_at
set_int_target id cpu g =
    let reg = id / 4 in
    let new_val = with_lane (g.itargetsr reg) 0xFF (id % 4 * 8) cpu in
    record g { itargetsr = set_at g.itargetsr reg new_val }

unfoldable pub set_int_group : ℕ → ℕ → Gic → Gic
unfolding with_lane set_at
set_int_group id group g =
    let reg = id / 32 in
    let new_val = with_lane (g.igroupr reg) 1 (id % 32) group in
    record g { igroupr = set_at g.igroupr reg new_val }

unfoldable pub set_int_trigger : ℕ → ℕ → Gic → Gic
unfolding with_lane set_at
set_int_trigger id trigger g =
    let reg = id / 16 in
    let new_val = with_lane (g.icfgr reg) 3 (id % 16 * 2) trigger in
    record g { icfgr = set_at g.icfgr reg new_val }

-- The number of interrupts that `irq_devices` and the arrays of registers have room for. The code does
-- not look at it, and `none` stands for an access behind the arrays.
abbrev pub irq_count : ℕ
irq_count = 1024

unfoldable pub kdev_register_irq : ℕ → ℕ → Params → Gic → Option (ℕ × Gic)
unfolding set_int_priority set_int_target set_int_trigger
kdev_register_irq irq_id irq_dev_id p g =
    let g1 = set_int_priority irq_id p.priority g in
    let g2 = set_int_target irq_id p.cpu g1 in
    let g3 = set_int_trigger irq_id p.trigger g2 in
    if ltb irq_id irq_count
    then some (ok, record g3 { irq_devices = set_at g3.irq_devices irq_id irq_dev_id })
    else none

unfoldable pub kdev_enable_irq : ℕ → Gic → Option (ℕ × Gic)
unfolding set_at
kdev_enable_irq irq_id g =
    if ltb irq_id irq_count
    then some
        (ok, record g { isenabler = set_at g.isenabler (irq_id / 32) (u32 (2 ^ (irq_id % 32))) })
    else none
