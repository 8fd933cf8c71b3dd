-- ===== src/Proc/Tests.antt =====
-- A machine with one of two processes, over a memory that only counts contexts.
use pi_vos.Status.{ok}
use pi_vos.Prelude.{get_or, ℕ, ◌+◌, ◌-◌, ◌≡◌, refl, arith, some, List, [], ◌∷◌, ◌++◌, take, drop}
use pi_vos.Buffer.Stack.{Stack, IsValid}
use pi_vos.Buffer.Stack
use pi_vos.Proc.{
  MemoryOps, Kproc, Machine, start, exit, exec, alloc, mem_switch, init, set_proc, deref,
  prog_offset,
}
use pi_vos.Proc.Reach.{IsRunning, exec-Reach, runs, here, next}
use pi_vos.Proc.Resume.{top, ttbr, exit_resumes}

abbrev counter : MemoryOps
counter = record {
  State = ℕ;
  create_context = λ n. some (4096, n + 1);
  destroy_context = λ table n. some (n - 1);
  map_region = λ table region kind n. some n;
  copy_to_user = λ ttbr address text n. n;
}

abbrev idle : Kproc
idle = record { ctx = 8192; suspend = record { sp = 0; elr = 0; general_regs = [] } }

abbrev cells : Stack
cells = record { buffer = 4096; capacity = 2; len = 1; align = 280 }

abbrev one : Machine counter
one = record {
  procs = λ addr. idle;
  stack = cells;
  sp_el0 = 77;
  elr_el1 = 78;
  ttbr0_el1 = 0;
  mem = 1;
}

cells-IsValid : IsValid cells
cells-IsValid = record {
  len_in = omega arith;
  align_pos = omega arith;
  cells = omega arith;
  not_null = omega arith;
  no_wrap = omega arith;
}

abbrev programs : List (List ℕ)
programs = (1 ∷ []) ∷ []

exit_resumes_example :
    (out : Machine counter) × (start programs 0 (5 ∷ []) one ≡ some (ok, out))
    × ((sp elr used gone : ℕ)
        → counter.destroy_context 4096 used ≡ some gone
        → exit programs (6 ∷ []) (record out { sp_el0 = sp; elr_el1 = elr; mem = used })
          ≡ some (
            0,
            take 32 (5 ∷ []) ++ drop 32 (6 ∷ []),
            record one {
              procs = out.procs;
              ttbr0_el1 = ttbr (one.procs (top programs one)).ctx 1;
              mem = gone;
            },
          ))
exit_resumes_example =
    exit_resumes programs one 0 (5 ∷ []) (6 ∷ []) (get_or programs 0 []) 4096 2 2 cells-IsValid
      (omega arith) (omega arith) refl refl refl

abbrev none_yet : Machine counter
none_yet = record one { stack = record cells { len = 0 } }

none_yet-IsValid : IsValid none_yet.stack
none_yet-IsValid = record {
  len_in = omega arith;
  align_pos = omega arith;
  cells = omega arith;
  not_null = omega arith;
  no_wrap = omega arith;
}

abbrev first : Machine counter
first = record {
  procs = set_proc none_yet.procs 4096 (record idle { ctx = 4096 });
  stack = cells;
  sp_el0 = prog_offset;
  elr_el1 = prog_offset;
  ttbr0_el1 = ttbr 4096 1;
  mem = 2;
}

exec_first : exec programs 0 none_yet ≡ some first
unfolding exec alloc mem_switch init set_proc deref Stack.alloc Stack.full Stack.peek
exec_first = refl

exec-Reach_example : IsRunning programs (record first { sp_el0 = 1; elr_el1 = 2; mem = 3 })
exec-Reach_example =
    exec-Reach programs none_yet first (record first { sp_el0 = 1; elr_el1 = 2; mem = 3 }) 0
      none_yet-IsValid (omega arith) exec_first (next here (runs first 1 2 3))
