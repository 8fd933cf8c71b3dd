-- ===== src/Gic/Tests.antt =====
-- The timer's interrupt 30, on registers that hold ones.
use pi_vos.Prelude.{some, ◌*◌, ◌/◌, ◌%◌, ◌≡◌, ◌==◌, if◌then◌else◌, arith}
use pi_vos.Word.{test_bit}
use pi_vos.Status.{ok}
use pi_vos.Gic.{Gic, Params, kdev_register_irq}
use pi_vos.Gic.Lanes.{lane_bit, register_irq_lanes}

abbrev ones : Gic
ones = record {
  isenabler = λ i. 0;
  ipriorityr = λ i. 0xFFFFFFFF;
  itargetsr = λ i. 0xFFFFFFFF;
  igroupr = λ i. 0;
  icfgr = λ i. 0xFFFFFFFF;
  irq_devices = λ i. 0;
}

abbrev timer : Params
timer = record { priority = 0; cpu = 1; trigger = 2 }

register_irq_lanes_example :
    (out : Gic) × (kdev_register_irq 30 1 timer ones ≡ some (ok, out))
    × (test_bit (out.ipriorityr 7) 17 ≡ (
        if 7 == 30 / 4
        then lane_bit (ones.ipriorityr 7) 8 (30 % 4 * 8) timer.priority 17
        else test_bit (ones.ipriorityr 7) 17))
    × (test_bit (out.itargetsr 7) 17 ≡ (
        if 7 == 30 / 4
        then lane_bit (ones.itargetsr 7) 8 (30 % 4 * 8) timer.cpu 17
        else test_bit (ones.itargetsr 7) 17))
    × (test_bit (out.icfgr 7) 17 ≡ (
        if 7 == 30 / 16
        then lane_bit (ones.icfgr 7) 2 (30 % 16 * 2) timer.trigger 17
        else test_bit (ones.icfgr 7) 17))
    × (out.irq_devices 7 ≡ (if 7 == 30 then 1 else ones.irq_devices 7))
register_irq_lanes_example =
    register_irq_lanes 30 1 7 17 timer ones (omega arith) (omega arith) (omega arith) (omega arith)
      (omega arith)
