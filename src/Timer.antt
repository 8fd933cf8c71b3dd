-- ===== src/Timer.antt =====
-- dev/generic_timer.c and dev/generic_timer/reg.h: the timer that fires after an interval.
--
-- The system registers are fields of the state. `generic_timer_reset` builds the words for two of them
-- in variables that it does not initialise: what these hold before is an argument. A null action,
-- which the code would call, is `none`.
pub mod Interval
mod Tests
use Prim.Native.String.{String}
use pi_vos.Prelude.{ℕ, ◌+◌, ◌*◌, Option, none, some, List, [], ◌∷◌}
use pi_vos.Word.{u16, u32}
use pi_vos.Register.{Layout, get_field, set_field}

abbrev pub cntp_cval : Layout
cntp_cval = ("CompareValue", 64) ∷ []

abbrev pub cntp_tval : Layout
cntp_tval = ("TimerValue", 32) ∷ ("RES0", 32) ∷ []

abbrev pub cntp_ctl : Layout
cntp_ctl = ("ENABLE", 1) ∷ ("IMASK", 1) ∷ ("ISTATUS", 1) ∷ ("RES0", 29) ∷ []

abbrev pub cntpct : Layout
cntpct = ("PhysicalCountValue", 64) ∷ []

abbrev pub cntfrq : Layout
cntfrq = ("ClockFrequency", 32) ∷ ("RES0", 32) ∷ []

-- `interval` and `timer_action`, and the system registers
pub record Timer (World : Type 0) : Type 0 where
  pub interval : ℕ
  pub action : Option (World → World)
  pub cntfrq_el0 : ℕ
  pub cntp_tval_el0 : ℕ
  pub cntp_ctl_el0 : ℕ

-- What the variables `tval` and `ctl` hold before they are set.
pub record Garbage : Type 0 where
  pub tval : ℕ
  pub ctl : ℕ

module _ {World : Type 0} where
  unfoldable pub reset : Garbage → Timer World → Timer World
  reset garbage t =
      let freq = get_field cntfrq "ClockFrequency" t.cntfrq_el0 in
      record t {
        cntp_tval_el0 = set_field cntp_tval "TimerValue" (u32 (freq * t.interval)) garbage.tval;
        cntp_ctl_el0 = set_field cntp_ctl "ENABLE" 1 (set_field cntp_ctl "ISTATUS" 0 garbage.ctl);
      }

  unfoldable pub init : Garbage → ℕ → Timer World → ℕ × Timer World
  unfolding reset
  init garbage interval t = (0, reset garbage (record t { interval = u16 interval }))

  unfoldable pub kdev_isr : Garbage → Timer World × World → Option (Timer World × World)
  unfolding reset
  kdev_isr garbage (t, w) = elim t.action [
    | none ↦ none
    | some action ↦ some (reset garbage t, action w)
  ]

  unfoldable pub kdev_set_action : (World → World) → Timer World → Timer World
  kdev_set_action action t = record t { action = some action }
