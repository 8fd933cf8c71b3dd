-- ===== src/Gic/Lanes.antt =====
-- dev/gicv2.c: a setter changes the lane of its interrupt and no other bit.
use pi_vos.Prelude.{
  some, ltb, true, ℕ, ◌+◌, ◌-◌, ◌*◌, ◌/◌, ◌%◌, ◌^◌, ◌<◌, ◌≡◌, bit_and, Bool, ◌&&◌, ltb, leb, ◌==◌,
  if◌then◌else◌, arith, refl,
}
use native.Mathlib.Decide.{dec_lt, ℕ_discrete}
use pi_vos.Word.{u32, test_bit}
use pi_vos.Word.Bits.{
  test_bit-bit_and, test_bit-bit_or, test_bit_complement, test_bit_ones, test_bit_shift_low,
  test_bit_shift_high,
}
use pi_vos.Word.Range.{test_bit_truncate, test_bit_of_lt}
use pi_vos.Gic.{
  Gic, Params, with_lane, set_at, irq_count, kdev_register_irq, set_int_priority, set_int_target,
  set_int_trigger,
}
use pi_vos.Status.{ok}

-- bit `j` of a word after its lane of `w` bits from `s` on is set to `v`
abbrev pub lane_bit : ℕ → ℕ → ℕ → ℕ → ℕ → Bool
lane_bit b w s v j = if leb s j && ltb j (s + w) then test_bit v (j - s) else test_bit b j

pub with_lane_bit :
    (b w s v j : ℕ)
    → j < 32
    → v < 2 ^ w
    → test_bit (with_lane b (2 ^ w - 1) s v) j ≡ lane_bit b w s v j
unfolding with_lane
with_lane_bit b w s v j h small =
    rw
      (
        with_lane,
        test_bit-bit_or j (bit_and b (2 ^ 32 - 1 - u32 ((2 ^ w - 1) * 2 ^ s))) (u32 (v * 2 ^ s)),
        test_bit-bit_and j b (2 ^ 32 - 1 - u32 ((2 ^ w - 1) * 2 ^ s)),
        test_bit_complement j 32 (u32 ((2 ^ w - 1) * 2 ^ s)) h (omega arith),
        test_bit_truncate j 32 ((2 ^ w - 1) * 2 ^ s) h,
        test_bit_truncate j 32 (v * 2 ^ s) h,
      )
      (elim (dec_lt j s) [
        | yes p ↦ ground (arith, test_bit_shift_low j s (2 ^ w - 1) p, test_bit_shift_low j s v p)
        | no p ↦ elim (dec_lt (j - s) w) [
          | yes q ↦ ground (
            arith,
            test_bit_shift_high j s (2 ^ w - 1) (omega arith),
            test_bit_shift_high j s v (omega arith),
            test_bit_ones (j - s) w,
          )
          | no q ↦ ground (
            arith,
            test_bit_shift_high j s (2 ^ w - 1) (omega arith),
            test_bit_shift_high j s v (omega arith),
            test_bit_ones (j - s) w,
            test_bit_of_lt w (j - s) v small (omega arith),
          )
        ]
      ])

lane_set :
    (regs : ℕ → ℕ) (w reg s v i j : ℕ)
    → j < 32
    → v < 2 ^ w
    → test_bit (set_at regs reg (with_lane (regs reg) (2 ^ w - 1) s v) i) j
      ≡ (if i == reg then lane_bit (regs i) w s v j else test_bit (regs i) j)
unfolding set_at
lane_set regs w reg s v i j h small = elim (ℕ_discrete i reg) [
  | yes e ↦ rw e (ground (arith, with_lane_bit (regs reg) w s v j h small))
  | no n ↦ ground arith
]

-- What a registration leaves.
abbrev pub registered : ℕ → ℕ → Params → Gic → Gic
registered irq_id irq_dev_id p g =
    let set =
      set_int_trigger irq_id p.trigger
        (set_int_target irq_id p.cpu (set_int_priority irq_id p.priority g)) in
    record set { irq_devices = set_at set.irq_devices irq_id irq_dev_id }

pub registers :
    (irq_id irq_dev_id : ℕ) (p : Params) (g : Gic)
    → irq_id < irq_count
    → kdev_register_irq irq_id irq_dev_id p g ≡ some (ok, registered irq_id irq_dev_id p g)
unfolding kdev_register_irq
registers irq_id irq_dev_id p g known =
    let inside : ltb irq_id irq_count ≡ true = ground arith in rw inside refl

-- Registering an interrupt below 1024 succeeds. It changes, in the registers of priorities, targets
-- and triggers, the lane of that interrupt to the parameter and no other bit `j` of any register `i`,
-- and it changes the device of that interrupt alone; for parameters that fit their lanes.
pub register_irq_lanes :
    (irq_id irq_dev_id i j : ℕ) (p : Params) (g : Gic)
    → irq_id < irq_count
    → j < 32
    → p.priority < 2 ^ 8
    → p.cpu < 2 ^ 8
    → p.trigger < 2 ^ 2
    → (out : Gic) × (kdev_register_irq irq_id irq_dev_id p g ≡ some (ok, out))
      × (test_bit (out.ipriorityr i) j ≡ (
          if i == irq_id / 4
          then lane_bit (g.ipriorityr i) 8 (irq_id % 4 * 8) p.priority j
          else test_bit (g.ipriorityr i) j))
      × (test_bit (out.itargetsr i) j ≡ (
          if i == irq_id / 4
          then lane_bit (g.itargetsr i) 8 (irq_id % 4 * 8) p.cpu j
          else test_bit (g.itargetsr i) j))
      × (test_bit (out.icfgr i) j ≡ (
          if i == irq_id / 16
          then lane_bit (g.icfgr i) 2 (irq_id % 16 * 2) p.trigger j
          else test_bit (g.icfgr i) j))
      × (out.irq_devices i ≡ (if i == irq_id then irq_dev_id else g.irq_devices i))
unfolding set_int_priority set_int_target set_int_trigger set_at
register_irq_lanes irq_id irq_dev_id i j p g known h hp hc ht = (
  registered irq_id irq_dev_id p g,
  registers irq_id irq_dev_id p g known,
  lane_set g.ipriorityr 8 (irq_id / 4) (irq_id % 4 * 8) p.priority i j h hp,
  lane_set g.itargetsr 8 (irq_id / 4) (irq_id % 4 * 8) p.cpu i j h hc,
  lane_set g.icfgr 2 (irq_id / 16) (irq_id % 16 * 2) p.trigger i j h ht,
  refl,
)
