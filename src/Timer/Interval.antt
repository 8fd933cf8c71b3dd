-- ===== src/Timer/Interval.antt =====
-- dev/generic_timer.c: the interval that the timer is set to, by its initialisation and by each of
-- its interrupts.
use mathlib.Core.Path.{subst}
use pi_vos.Prelude.{
  ap, zero, suc, List, [], ◌∷◌, Option, none, length, ℕ, ◌*◌, ◌%◌, ◌^◌, ◌<◌, ◌≡◌, refl, arith, ◌∙◌,
  true, some,
}
use pi_vos.Word.{u16, u32}
use pi_vos.Register.{get_field, set_field, has, width_of}
use pi_vos.Register.Fields.{get_field-set_field}
use pi_vos.Timer.{
  Timer, Garbage, cntp_tval, cntp_ctl, cntfrq, reset, init, kdev_isr, kdev_set_action,
}

timer_fields :
    (has "TimerValue" cntp_tval ≡ true)
    × (has "RES0" cntp_tval ≡ true)
    × (has "ENABLE" cntp_ctl ≡ true)
    × (has "IMASK" cntp_ctl ≡ true)
    × (has "ISTATUS" cntp_ctl ≡ true)
    × (width_of "TimerValue" cntp_tval ≡ 32)
    × (width_of "ENABLE" cntp_ctl ≡ 1)
    × (width_of "ISTATUS" cntp_ctl ≡ 1)
unfolding has width_of
timer_fields = (refl, refl, refl, refl, refl, refl, refl, refl)

module _ {World : Type 0} (t : Timer World) (garbage : Garbage) where
  abbrev freq : ℕ
  freq = get_field cntfrq "ClockFrequency" t.cntfrq_el0

  -- What a reset leaves in the registers.
  abbrev pub IsReset : Timer World → ℕ → Type 0
  IsReset out interval =
      (get_field cntp_tval "TimerValue" out.cntp_tval_el0 ≡ freq * interval % 2 ^ 32)
      × (get_field cntp_ctl "ENABLE" out.cntp_ctl_el0 ≡ 1)
      × (get_field cntp_ctl "ISTATUS" out.cntp_ctl_el0 ≡ 0)
      × (get_field cntp_ctl "IMASK" out.cntp_ctl_el0 ≡ get_field cntp_ctl "IMASK" garbage.ctl)

  reset-IsReset : IsReset (reset garbage t) t.interval
  unfolding reset
  reset-IsReset =
      let f = timer_fields in
      let status : ℕ = set_field cntp_ctl "ISTATUS" 0 garbage.ctl in
      let v =
        get_field-set_field cntp_tval "TimerValue" "RES0" (u32 (freq * t.interval)) garbage.tval
          refl f.0 f.1 in
      let e = get_field-set_field cntp_ctl "ENABLE" "ISTATUS" 1 status refl f.2 f.4 in
      let m = get_field-set_field cntp_ctl "ENABLE" "IMASK" 1 status refl f.2 f.3 in
      let s = get_field-set_field cntp_ctl "ISTATUS" "IMASK" 0 garbage.ctl refl f.4 f.3 in
      (v.0 ∙ rw (f.5) (omega arith), e.0 ∙ rw (f.6) refl, e.1 ∙ (s.0 ∙ rw (f.7) refl), m.1 ∙ s.1)

-- The interrupts of a timer, one for each element of the list.
unfoldable pub serve :
    {World : Type 0} → List Garbage → Timer World × World → Option (Timer World × World)
serve [] s = some s
serve (garbage ∷ later) s = elim (kdev_isr garbage s) [ none ↦ none | some s1 ↦ serve later s1 ]

-- An action that runs as many times.
abbrev pub times : {World : Type 0} → ℕ → (World → World) → World → World
times zero action w = w
times (suc n) action w = times n action (action w)

-- What the interrupts keep of a timer.
record IsKept {World : Type 0} (t : Timer World) (interval : ℕ) (action : World → World)
    (now : Timer World) : Type 0 where
  same_interval : now.interval ≡ interval
  same_action : now.action ≡ some action
  same_clock : now.cntfrq_el0 ≡ t.cntfrq_el0

isr_runs :
    {World : Type 0} (garbage : Garbage) (now : Timer World) (action : World → World) (w : World)
    → now.action ≡ some action
    → kdev_isr garbage (now, w) ≡ some (reset garbage now, action w)
unfolding kdev_isr
isr_runs {World} garbage now action w e =
    ap
      (λ (a : Option (World → World)). elim a as (λ _. Option (Timer World × World)) [
        | none ↦ none
        | some act ↦ some (reset garbage now, act w)
      ])
      e

module _ {World : Type 0} (t : Timer World) (interval : ℕ) (action : World → World) where
  kdev_isr-IsKept :
      (garbage : Garbage) (now : Timer World) (w : World)
      → IsKept t interval action now
      → (kdev_isr garbage (now, w) ≡ some (reset garbage now, action w))
        × IsKept t interval action (reset garbage now)
        × IsReset t garbage (reset garbage now) interval
  unfolding reset
  kdev_isr-IsKept garbage now w s =
      let r = reset-IsReset now garbage in
      (
        isr_runs garbage now action w s.same_action,
        record {
          same_interval = s.same_interval;
          same_action = s.same_action;
          same_clock = s.same_clock;
        },
        (r.0 ∙ rw (s.same_clock, s.same_interval) refl, r.1, r.2, r.3),
      )

  serve-IsKept :
      (garbages : List Garbage) (now : Timer World) (w : World)
      → IsKept t interval action now
      → (out : Timer World) × (serve garbages (now, w)
          ≡ some (out, times (length garbages) action w))
        × IsKept t interval action out
  unfolding serve
  serve-IsKept [] now w s = (now, refl, s)
  serve-IsKept (garbage ∷ later) now w s =
      let one = kdev_isr-IsKept garbage now w s in
      let (out, runs, set) = serve-IsKept later (reset garbage now) (action w) one.1 in
      (out, rw (serve, one.0) runs, set)

-- A timer that is initialised with an interval of 16 bits and given an action is set by its
-- initialisation, and by each of its interrupts however many came before, to the interval times the
-- clock's frequency, cut to 32 bits, and enabled; each interrupt runs the action once. Whether the
-- timer's interrupt is masked is what the uninitialised variable held.
pub isr_resets :
    {World : Type 0} (t : Timer World) (garbage : Garbage) (before : List Garbage)
    (garbage1 : Garbage) (interval : ℕ) (action : World → World) (w : World)
    → interval < 2 ^ 16
    → let ready = kdev_set_action action (init garbage interval t).1 in
      let n = length before in
      IsReset t garbage ready interval
      × (now out : Timer World) × (serve before (ready, w) ≡ some (now, times n action w))
      × (kdev_isr garbage1 (now, times n action w) ≡ some (out, action (times n action w)))
      × IsReset t garbage1 out interval
unfolding init kdev_set_action reset
isr_resets {World} t garbage before garbage1 interval action w h =
    let set : Timer World = record t { interval = u16 interval } in
    let ready : Timer World = kdev_set_action action (init garbage interval t).1 in
    let short : u16 interval ≡ interval = omega arith in
    let start : IsKept t interval action ready = record {
      same_interval = short;
      same_action = refl;
      same_clock = refl;
    } in
    let (now, runs, kept) = serve-IsKept t interval action before ready w start in
    let one =
      kdev_isr-IsKept t interval action garbage1 now (times (length before) action w) kept in
    (
      subst (IsReset t garbage ready) short (reset-IsReset set garbage),
      now,
      reset garbage1 now,
      runs,
      one.0,
      one.2,
    )
