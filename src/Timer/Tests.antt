-- ===== src/Timer/Tests.antt =====
-- A clock of 1000 ticks a second, and an action that counts.
use pi_vos.Prelude.{[], ◌∷◌, ℕ, ◌+◌, ◌≡◌, arith, none, some}
use pi_vos.Timer.{Timer, Garbage, init, kdev_isr, kdev_set_action}
use pi_vos.Timer.Interval.{IsReset, serve, isr_resets}

abbrev fresh : Timer ℕ
fresh = record {
  interval = 0;
  action = none;
  cntfrq_el0 = 1000;
  cntp_tval_el0 = 0;
  cntp_ctl_el0 = 0;
}

abbrev masking : Garbage
masking = record { tval = 5; ctl = 2 }

isr_resets_example :
    let ready = kdev_set_action (λ (n : ℕ). n + 1) (init masking 4 fresh).1 in
    IsReset fresh masking ready 4
    × (now out : Timer ℕ) × (serve (masking ∷ masking ∷ []) (ready, 0) ≡ some (now, 2))
    × (kdev_isr masking (now, 2) ≡ some (out, 3))
    × IsReset fresh masking out 4
isr_resets_example =
    isr_resets fresh masking (masking ∷ masking ∷ []) masking 4 (λ (n : ℕ). n + 1) 0 (omega arith)
