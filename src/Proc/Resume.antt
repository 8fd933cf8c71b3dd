-- ===== src/Proc/Resume.antt =====
-- proc.c: a process that starts another one is resumed as it was when that one exits.
use pi_vos.Prelude.{
  ℕ, ◌+◌, ◌-◌, ◌*◌, ◌^◌, ◌<◌, ◌≡◌, ◌≢◌, some, List, ◌++◌, ◌==◌, bit_or, take, drop, get_elem?,
  arith, ap, ◌∙◌, sym, false,
}
use native.Mathlib.Nat.{mul-lt-mul_of_pos_right}
use pi_vos.Word.{u64, strip_kernel_space}
use pi_vos.Status.{ok}
use pi_vos.Buffer.Stack
use pi_vos.Buffer.Stack.{Stack, IsValid}
use pi_vos.Buffer.Stack.Cells.{cell, peek-cell, grown-IsValid, alloc-free}
use pi_vos.Proc.{
  MemoryOps, Kproc, Machine, map_alloc, kproc_region, prog_offset, set_proc, deref, count, alloc,
  free, get, mem_switch, init, suspend, restore, start, exit,
}

-- The word that `kproc_mem_switch` puts into `ttbr0_el1` for a table and a number of processes.
abbrev pub ttbr : ℕ → ℕ → ℕ
ttbr table processes = bit_or (strip_kernel_space table) (u64 (processes * 2 ^ 48))

pub deref_lem : (procs : ℕ → Kproc) (addr : ℕ) → 0 < addr → deref procs addr ≡ some (procs addr)
unfolding deref
deref_lem procs addr h = ground arith

pub set_proc_same : (procs : ℕ → Kproc) (addr : ℕ) (p : Kproc) → set_proc procs addr p addr ≡ p
unfolding set_proc
set_proc_same procs addr p = ground arith

set_proc_other :
    (procs : ℕ → Kproc) (addr other : ℕ) (p : Kproc)
    → other ≢ addr
    → set_proc procs addr p other ≡ procs other
unfolding set_proc
set_proc_other procs addr other p h = ground arith

module _ {ops : MemoryOps} (tab : List (List ℕ)) where
  -- The process on top of the stack, suspended with the registers of the machine and `rs`.
  abbrev pub suspended : Machine ops → List ℕ → Kproc
  suspended m rs = record (m.procs (cell m.stack (m.stack.len - 1))) {
    suspend = record { sp = m.sp_el0; elr = m.elr_el1; general_regs = take 32 rs };
  }

  abbrev pub top : Machine ops → ℕ
  top m = cell m.stack (m.stack.len - 1)

  abbrev pub next : Machine ops → ℕ
  next m = cell m.stack m.stack.len

  abbrev pub procs_after : Machine ops → List ℕ → ℕ → ℕ → Kproc
  procs_after m rs table =
      set_proc (set_proc m.procs (top m) (suspended m rs)) (next m)
        (record (set_proc m.procs (top m) (suspended m rs) (next m)) { ctx = table })

  -- What `kproc_start` leaves: the new process on the stack, with its table.
  abbrev pub started : Machine ops → List ℕ → ℕ → List ℕ → ops.State → Machine ops
  started m rs table text mem = record {
    procs = procs_after m rs table;
    stack = record m.stack { len = m.stack.len + 1 };
    sp_el0 = prog_offset;
    elr_el1 = prog_offset;
    ttbr0_el1 = ttbr table (m.stack.len + 1);
    mem = ops.copy_to_user (ttbr table (m.stack.len + 1)) prog_offset text mem;
  }

  pub mem_switch_lem :
      (m : Machine ops) (proc : ℕ)
      → 0 < proc
      → mem_switch tab proc m ≡ some (record m { ttbr0_el1 = ttbr (m.procs proc).ctx m.stack.len })
  unfolding mem_switch
  mem_switch_lem m proc h = rw (mem_switch, deref_lem m.procs proc h)

  pub suspend_lem :
      (m : Machine ops) (proc : ℕ) (rs : List ℕ)
      → 0 < proc
      → suspend tab proc rs m
        ≡ some (record m {
          procs = set_proc m.procs proc (record (m.procs proc) {
            suspend = record { sp = m.sp_el0; elr = m.elr_el1; general_regs = take 32 rs };
          });
        })
  unfolding suspend
  suspend_lem m proc rs h = rw (suspend, deref_lem m.procs proc h)

  alloc_lem :
      (m : Machine ops) (table : ℕ) (mem mem' : ops.State)
      → IsValid m.stack
      → m.stack.len < m.stack.capacity
      → ops.create_context m.mem ≡ some (table, mem)
      → ops.map_region table kproc_region map_alloc mem ≡ some mem'
      → alloc tab m
        ≡ some (
          next m,
          record m {
            procs = set_proc m.procs (next m) (record (m.procs (next m)) { ctx = table });
            stack = record m.stack { len = m.stack.len + 1 };
            mem = mem';
          },
        )
  unfolding alloc
  alloc_lem m table mem mem' v room c r = rw (alloc, (alloc-free m.stack v room).0, not_null, c, r)
    where
      not_null : (next m == 0) ≡ false
      not_null = ground (arith, v)

  init_lem :
      (m : Machine ops) (prog_id : ℕ) (text : List ℕ)
      → get_elem? tab prog_id ≡ some text
      → init tab prog_id m
        ≡ some (record m {
          mem = ops.copy_to_user m.ttbr0_el1 prog_offset text m.mem;
          sp_el0 = prog_offset;
          elr_el1 = prog_offset;
        })
  unfolding init
  init_lem m prog_id text t = rw (init, t)

  -- On a stack with a process and room for another, when the memory component gives a context and
  -- maps it and the program is in the table, the start of a program succeeds: it saves the registers
  -- in the process on top, and runs the program in a new process with its own table.
  pub start_lem :
      (m : Machine ops) (prog_id : ℕ) (rs text : List ℕ) (table : ℕ) (mem mem' : ops.State)
      → IsValid m.stack
      → 0 < m.stack.len
      → m.stack.len < m.stack.capacity
      → get_elem? tab prog_id ≡ some text
      → ops.create_context m.mem ≡ some (table, mem)
      → ops.map_region table kproc_region map_alloc mem ≡ some mem'
      → start tab prog_id rs m ≡ some (ok, started m rs table text mem')
  unfolding start get Stack.full
  start_lem m prog_id rs text table mem mem' v h room t c r = rw (
    start,
    get,
    not_full,
    peek-cell m.stack v h,
    mem_switch_lem m (top m) (omega (arith, v)),
    suspend_lem switched (top m) rs (omega (arith, v)),
    alloc_lem saved table mem mem' v room c r,
    mem_switch_lem allocated (next m) (omega (arith, v)),
    set_proc_same saved.procs (next m) (record (saved.procs (next m)) { ctx = table }),
    init_lem running prog_id text t,
  )
    where
      not_full : Stack.full m.stack ≡ false
      not_full = ground arith

      switched : Machine ops
      switched = record m { ttbr0_el1 = ttbr (m.procs (top m)).ctx m.stack.len }

      saved : Machine ops
      saved = record switched { procs = set_proc m.procs (top m) (suspended m rs) }

      allocated : Machine ops
      allocated = record saved {
        procs = procs_after m rs table;
        stack = record m.stack { len = m.stack.len + 1 };
        mem = mem';
      }

      running : Machine ops
      running = record allocated { ttbr0_el1 = ttbr table (m.stack.len + 1) }

  -- The new process when it makes the exit call: it has used its registers and its memory.
  abbrev pub ran : Machine ops → List ℕ → ℕ → ℕ → ℕ → ops.State → Machine ops
  ran m rs table sp elr mem = record {
    procs = procs_after m rs table;
    stack = record m.stack { len = m.stack.len + 1 };
    sp_el0 = sp;
    elr_el1 = elr;
    ttbr0_el1 = ttbr table (m.stack.len + 1);
    mem = mem;
  }

  top-procs_after :
      (m : Machine ops) (rs : List ℕ) (table : ℕ)
      → IsValid m.stack
      → 0 < m.stack.len
      → procs_after m rs table (top m) ≡ suspended m rs
  top-procs_after m rs table v h =
      set_proc_other _ (next m) (top m) _ apart ∙ set_proc_same m.procs (top m) (suspended m rs)
    where
      apart : top m ≢ next m
      apart = omega (
        arith,
        v,
        mul-lt-mul_of_pos_right {m = m.stack.len - 1} {n = m.stack.len} (omega arith) v.align_pos,
      )

  free_lem :
      (m : Machine ops) (rs : List ℕ) (table sp elr : ℕ) (mem mem' : ops.State)
      → IsValid m.stack
      → 0 < m.stack.len
      → m.stack.len < m.stack.capacity
      → ops.destroy_context table mem ≡ some mem'
      → free tab (ran m rs table sp elr mem)
        ≡ some (top m, record (ran m rs table sp elr mem) { stack = m.stack; mem = mem' })
  unfolding free
  free_lem m rs table sp elr mem mem' v h room d = rw (
    free,
    last,
    deref_lem (procs_after m rs table) (next m) (omega (arith, v)),
    set_proc_same (set_proc m.procs (top m) (suspended m rs)) (next m) _,
    d,
    shrunk,
    peek-cell m.stack v h,
  )
    where
      last : Stack.peek (record m.stack { len = m.stack.len + 1 }) ≡ next m
      last =
          peek-cell (record m.stack { len = m.stack.len + 1 }) (grown-IsValid m.stack v room)
            (omega arith)
          ∙ ap (cell m.stack) (omega arith)

      shrunk : Stack.free (record m.stack { len = m.stack.len + 1 }) ≡ m.stack
      shrunk =
          ap (λ r. Stack.free r.1) (sym (alloc-free m.stack v room).0)
          ∙ (alloc-free m.stack v room).3

  -- The exit of the new process.
  exit-ran :
      (m : Machine ops) (rs rs' : List ℕ) (table sp elr : ℕ) (mem mem' : ops.State)
      → IsValid m.stack
      → 0 < m.stack.len
      → m.stack.len < m.stack.capacity
      → ops.destroy_context table mem ≡ some mem'
      → exit tab rs' (ran m rs table sp elr mem)
        ≡ some (
          0,
          take 32 rs ++ drop 32 rs',
          record m {
            procs = procs_after m rs table;
            ttbr0_el1 = ttbr (m.procs (top m)).ctx m.stack.len;
            mem = mem';
          },
        )
  unfolding exit count free restore
  exit-ran m rs rs' table sp elr mem mem' v h room d = rw (
    exit,
    more,
    free_lem m rs table sp elr mem mem' v h room d,
    mem_switch_lem freed (top m) (omega (arith, v)),
    restore,
    deref_lem (procs_after m rs table) (top m) (omega (arith, v)),
    top-procs_after m rs table v h,
  )
    where
      more : (m.stack.len + 1 == 1) ≡ false
      more = ground arith

      freed : Machine ops
      freed = record (ran m rs table sp elr mem) { stack = m.stack; mem = mem' }

  -- On a valid stack with a process and room for another, when the memory component gives a context
  -- and maps it and the program is in the table, the start of a program succeeds. When the started process
  -- exits, whatever it did with its own registers and memory, and the memory component destroys its
  -- context, the process that started it gets back the stack pointer, the return address, the
  -- general registers and the address space that it had at the start; the stack is as before the
  -- start.
  pub exit_resumes :
      (m : Machine ops) (prog_id : ℕ) (rs rs' text : List ℕ) (table : ℕ) (mem mem' : ops.State)
      → IsValid m.stack
      → 0 < m.stack.len
      → m.stack.len < m.stack.capacity
      → get_elem? tab prog_id ≡ some text
      → ops.create_context m.mem ≡ some (table, mem)
      → ops.map_region table kproc_region map_alloc mem ≡ some mem'
      → (out : Machine ops) × (start tab prog_id rs m ≡ some (ok, out))
        × ((sp elr : ℕ) (used gone : ops.State)
            → ops.destroy_context table used ≡ some gone
            → exit tab rs' (record out { sp_el0 = sp; elr_el1 = elr; mem = used })
              ≡ some (
                0,
                take 32 rs ++ drop 32 rs',
                record m {
                  procs = out.procs;
                  ttbr0_el1 = ttbr (m.procs (top m)).ctx m.stack.len;
                  mem = gone;
                },
              ))
  exit_resumes m prog_id rs rs' text table mem mem' v h room t c r = (
    started m rs table text mem',
    start_lem m prog_id rs text table mem mem' v h room t c r,
    λ sp elr used gone d. exit-ran m rs rs' table sp elr used gone v h room d,
  )
