-- ===== src/Proc/Reach.antt =====
-- proc.c: the steps of the machine between the start of the first process and the last exit.
use mathlib.Core.Path.{subst}
use pi_vos.Prelude.{
  ℕ, ◌+◌, ◌-◌, ◌<◌, ◌≡◌, refl, sym, arith, ap, false, Option, none, some, List, ◌==◌, get_elem?,
  Bool-cases, inl, inr,
}
use pi_vos.Buffer.Stack
use pi_vos.Buffer.Stack.{Stack, IsValid}
use pi_vos.Buffer.Stack.Cells.{cell, peek-cell, grown-IsValid, alloc-free, free_lem, shrunk-IsValid}
use pi_vos.Proc.{
  MemoryOps, Machine, map_alloc, kproc_region, deref, alloc, free, get, mem_switch, init, restore,
  start, exec, exit, count, ◌>>=◌,
}
use pi_vos.Proc.Resume.{top, ttbr, mem_switch_lem, suspend_lem, deref_lem}

-- `P` of the result, where there is one.
unfoldable pub After : {A : Type 0} → (A → Type 0) → Option A → Type 0
After P none = Unit {0}
After P (some a) = P a

After-bind :
    {A B : Type 0} (P : A → Type 0) (Q : B → Type 0) (o : Option A) (k : A → Option B)
    → After P o
    → ((a : A) → P a → After Q (k a))
    → After Q (o >>= k)
unfolding After
After-bind P Q none k h next = tt
After-bind P Q (some a) k h next = next a h

After-any : {A : Type 0} (o : Option A) → After (λ a. Unit {0}) o
unfolding After
After-any none = tt
After-any (some a) = tt

After-some : {A : Type 0} (P : A → Type 0) {o : Option A} {a : A} → o ≡ some a → After P o → P a
unfolding After
After-some P e h = subst (After P) e h

module _ {ops : MemoryOps} (tab : List (List ℕ)) where
  -- A valid stack of processes, and the address space, with its ASID, of the one on top.
  pub record IsRunning (m : Machine ops) : Type 0 where
    pub valid : IsValid m.stack
    pub some_proc : 0 < m.stack.len
    pub space : m.ttbr0_el1 ≡ ttbr (m.procs (top tab m)).ctx m.stack.len

  -- The system calls that change the machine, when they do not fault, and the process running:
  -- it changes its stack pointer, its return address and its memory.
  pub data Step : Machine ops → Machine ops → Type 0 where
    starts :
        {m m1 : Machine ops} (prog_id code : ℕ) (rs : List ℕ)
        → start tab prog_id rs m ≡ some (code, m1)
        → Step m m1
    exits :
        {m m1 : Machine ops} (code : ℕ) (rs rs1 : List ℕ)
        → exit tab rs m ≡ some (code, rs1, m1)
        → Step m m1
    runs :
        (m : Machine ops) (sp elr : ℕ) (mem : ops.State)
        → Step m (record m { sp_el0 = sp; elr_el1 = elr; mem = mem })

  pub data Reach (m : Machine ops) : Machine ops → Type 0 where
    here : Reach m m
    next : {m1 m2 : Machine ops} → Reach m m1 → Step m1 m2 → Reach m m2

  -- A new process is on top, and its cell is not null.
  abbrev IsOnTop : ℕ × Machine ops → Type 0
  IsOnTop result =
      IsValid result.1.stack
      × (0 < result.1.stack.len)
      × (0 < result.0)
      × (top tab result.1 ≡ result.0)

  alloc-IsOnTop :
      (m : Machine ops)
      → IsValid m.stack
      → m.stack.len < m.stack.capacity
      → After IsOnTop (alloc tab m)
  unfolding alloc After
  alloc-IsOnTop m v room =
      let kproc : ℕ = cell m.stack m.stack.len in
      let given = alloc-free m.stack v room in
      let not_null : (kproc == 0) ≡ false = ground (arith, v) in
      let last : m.stack.len + 1 - 1 ≡ m.stack.len = omega arith in
      rw (alloc, given.0, not_null)
        (After-bind (λ a. Unit {0}) IsOnTop (ops.create_context m.mem) _
          (After-any (ops.create_context m.mem))
          λ a u.
            After-bind (λ a1. Unit {0}) IsOnTop (ops.map_region a.0 kproc_region map_alloc a.1) _
              (After-any (ops.map_region a.0 kproc_region map_alloc a.1))
              λ a1 u1. (
                grown-IsValid m.stack v room,
                omega arith,
                omega (arith, v),
                ap (cell m.stack) last,
              ))

  switch_lem :
      (result : ℕ × Machine ops)
      → IsOnTop result
      → After IsRunning (mem_switch tab result.0 result.1)
  unfolding After
  switch_lem (proc, m) (valid, some_proc, not_null, same) =
      rw (mem_switch_lem tab m proc not_null) (record {
        valid = valid;
        some_proc = some_proc;
        space = ap (λ (addr : ℕ). ttbr (m.procs addr).ctx m.stack.len) (sym same);
      })

  init-IsRunning :
      (m : Machine ops) (prog_id : ℕ) → IsRunning m → After IsRunning (init tab prog_id m)
  unfolding init After
  init-IsRunning m prog_id r =
      After-bind (λ a. Unit {0}) IsRunning (get_elem? tab prog_id) _
        (After-any (get_elem? tab prog_id))
        λ text u. record { valid = r.valid; some_proc = r.some_proc; space = r.space }

  -- The first process, on a valid stack with room for it.
  exec-After :
      (m : Machine ops) (prog_id : ℕ)
      → IsValid m.stack
      → m.stack.len < m.stack.capacity
      → After IsRunning (exec tab prog_id m)
  unfolding exec
  exec-After m prog_id v room =
      After-bind IsOnTop IsRunning (alloc tab m) _ (alloc-IsOnTop m v room) λ (proc, m1) on.
        After-bind IsRunning IsRunning (mem_switch tab proc m1) _ (switch_lem (proc, m1) on)
          λ m2 r. init-IsRunning m2 prog_id r

  start-After :
      (m : Machine ops) (prog_id : ℕ) (rs : List ℕ)
      → IsRunning m
      → After (λ (r : ℕ × Machine ops). IsRunning r.1) (start tab prog_id rs m)
  unfolding start get Stack.full After
  start-After m prog_id rs r = elim (Bool-cases (m.stack.len == m.stack.capacity)) [
    | inl full ↦ rw (start, full) r
    | inr room ↦
        let valid = r.valid in
        let some_proc = r.some_proc in
        let fits : m.stack.len < m.stack.capacity = ground (arith, valid) in
        let not_null : 0 < top tab m = omega (arith, valid) in
        rw
          (
            start,
            get,
            room,
            peek-cell m.stack valid some_proc,
            mem_switch_lem tab m (top tab m) not_null,
            suspend_lem tab (record m { ttbr0_el1 = ttbr (m.procs (top tab m)).ctx m.stack.len })
                (top tab m) rs not_null,
          )
          (After-bind IsOnTop _ (alloc tab _) _ (alloc-IsOnTop _ valid fits) λ (proc, m1) on.
            After-bind IsRunning _ (mem_switch tab proc m1) _ (switch_lem (proc, m1) on) λ m2 r2.
              After-bind IsRunning _ (init tab prog_id m2) _ (init-IsRunning m2 prog_id r2)
                λ m3 r3. r3)
  ]

  free-IsOnTop : (m : Machine ops) → IsValid m.stack → 1 < m.stack.len → After IsOnTop (free tab m)
  unfolding free After
  free-IsOnTop m v many =
      let shrunk : Stack = record m.stack { len = m.stack.len - 1 } in
      let fewer : 0 < m.stack.len - 1 = omega arith in
      let shrunk_valid = shrunk-IsValid m.stack v in
      rw
        (
          free,
          peek-cell m.stack v (omega arith),
          deref_lem m.procs (top tab m) (omega (arith, v)),
          free_lem m.stack v (omega arith),
          peek-cell shrunk shrunk_valid fewer,
        )
        (After-bind (λ a. Unit {0}) IsOnTop (ops.destroy_context (m.procs (top tab m)).ctx m.mem) _
          (After-any (ops.destroy_context (m.procs (top tab m)).ctx m.mem))
          λ mem u. (shrunk_valid, fewer, omega (arith, v), refl))

  restore-After :
      (m : Machine ops) (proc : ℕ) (rs : List ℕ)
      → IsRunning m
      → After (λ (r : List ℕ × Machine ops). IsRunning r.1) (restore tab proc rs m)
  unfolding restore After
  restore-After m proc rs r =
      After-bind (λ a. Unit {0}) _ (deref m.procs proc) _ (After-any (deref m.procs proc))
        λ kproc u. record { valid = r.valid; some_proc = r.some_proc; space = r.space }

  exit-After :
      (m : Machine ops) (rs : List ℕ)
      → IsRunning m
      → After (λ (r : ℕ × List ℕ × Machine ops). IsRunning r.2) (exit tab rs m)
  unfolding exit count free restore After
  exit-After m rs r = elim (Bool-cases (m.stack.len == 1)) [
    | inl last ↦ rw (exit, count, last) r
    | inr more ↦
        rw (exit, count, more)
          (After-bind IsOnTop _ (free tab m) _
            (free-IsOnTop m r.valid (ground (arith, r.some_proc)))
            λ (proc, m1) on.
              After-bind IsRunning _ (mem_switch tab proc m1) _ (switch_lem (proc, m1) on) λ m2 r2.
                After-bind (λ (a : List ℕ × Machine ops). IsRunning a.1) _ (restore tab proc rs m2)
                  _ (restore-After m2 proc rs r2) λ (rs1, m3) r3. r3)
  ]

  Step-IsRunning : {m m1 : Machine ops} → Step m m1 → IsRunning m → IsRunning m1
  Step-IsRunning {m} (starts prog_id code rs e) r =
      After-some (λ (a : ℕ × Machine ops). IsRunning a.1) e (start-After m prog_id rs r)
  Step-IsRunning {m} (exits code rs rs1 e) r =
      After-some (λ (a : ℕ × List ℕ × Machine ops). IsRunning a.2) e (exit-After m rs r)
  Step-IsRunning (runs m sp elr mem) r = record {
    valid = r.valid;
    some_proc = r.some_proc;
    space = r.space;
  }

  Reach-IsRunning : {m m1 : Machine ops} → IsRunning m → Reach m m1 → IsRunning m1
  Reach-IsRunning r here = r
  Reach-IsRunning {m} r (next reach step) = Step-IsRunning step (Reach-IsRunning r reach)

  -- From the start of a process on a valid stack with room for it on, where that does not fault,
  -- whatever system calls and runs of processes follow, the stack of processes is valid and not
  -- empty, and the address space is that of the process on top, with the number of processes for
  -- its ASID.
  pub exec-Reach :
      (m m1 m2 : Machine ops) (prog_id : ℕ)
      → IsValid m.stack
      → m.stack.len < m.stack.capacity
      → exec tab prog_id m ≡ some m1
      → Reach m1 m2
      → IsRunning m2
  exec-Reach m m1 m2 prog_id v room e reach =
      Reach-IsRunning (After-some IsRunning e (exec-After m prog_id v room)) reach
