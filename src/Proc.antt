-- ===== src/Proc.antt =====
-- proc.c: the stack of processes.
--
-- The memory component is the interface `MemoryOps`: the calls of memory.h that this file makes, and
-- the copy of a program through the address space that `ttbr0_el1` selects. The processor's registers
-- that the inline assembly reads and writes are fields of the machine; the barriers and the TLB
-- invalidation have no state here. `none` is a fault: a null process, a program number out of the
-- table, or a fault of the memory component.
pub mod Resume
pub mod Reach
mod Tests
use pi_vos.Prelude.{
  ℕ, ◌+◌, ◌*◌, ◌^◌, Option, none, some, List, ◌++◌, ◌==◌, if◌then◌else◌, bit_or, take, drop,
  get_elem?,
}
use pi_vos.Word.{u64, strip_kernel_space}
use pi_vos.Status.{ok, proc_stack_full, proc_last}
use pi_vos.Buffer.Stack
use pi_vos.Buffer.Stack.{Stack}

-- `struct memory_region`
pub record Region : Type 0 where
  pub memory_type : ℕ
  pub va : ℕ
  pub size : ℕ

-- `enum memory_map_type`
pub data MapType : Type 0 where
  map_alloc : MapType
  one_to_one : MapType

pub record MemoryOps : Type 1 where
  pub State : Type 0
  pub create_context : State → Option (ℕ × State)
  pub destroy_context : ℕ → State → Option State
  pub map_region : ℕ → Region → MapType → State → Option State
  pub copy_to_user : ℕ → ℕ → List ℕ → State → State

-- `struct kproc_suspend_state`; `general_regs` has 32 registers.
pub record SuspendState : Type 0 where
  pub sp : ℕ
  pub elr : ℕ
  pub general_regs : List ℕ

-- `struct kproc`; the context is the address of its level 0 table.
pub record Kproc : Type 0 where
  pub ctx : ℕ
  pub suspend : SuspendState

-- The process cells by address, their stack, the registers and the memory.
pub record Machine (ops : MemoryOps) : Type 0 where
  pub procs : ℕ → Kproc
  pub stack : Stack
  pub sp_el0 : ℕ
  pub elr_el1 : ℕ
  pub ttbr0_el1 : ℕ
  pub mem : ops.State

-- `KPROC_PROG_OFFSET`
abbrev pub prog_offset : ℕ
prog_offset = 0x80000

-- `kproc_region`: a process has 280 bytes, which is one block of 2 MB.
abbrev pub kproc_region : Region
kproc_region = record { memory_type = 0; va = 0; size = 2 * 2 ^ 20 }

infixl 5 ◌>>=◌
abbrev pub ◌>>=◌ : {A B : Type 0} → Option A → (A → Option B) → Option B
none >>= k = none
some a >>= k = k a

-- `proc->field = ...`
unfoldable pub set_proc : (ℕ → Kproc) → ℕ → Kproc → ℕ → Kproc
set_proc procs addr proc other = if other == addr then proc else procs other

-- A null pointer is not followed.
unfoldable pub deref : (ℕ → Kproc) → ℕ → Option Kproc
deref procs addr = if addr == 0 then none else some (procs addr)

-- `kproc_prog_tab`, the images of the programs
module _ {ops : MemoryOps} (kproc_prog_tab : List (List ℕ)) where
  unfoldable pub count : Machine ops → ℕ
  count m = m.stack.len

  -- The process is 0 when there is no cell left.
  unfoldable pub alloc : Machine ops → Option (ℕ × Machine ops)
  unfolding set_proc
  alloc m =
      let (kproc, stack) = Stack.alloc m.stack in
      if kproc == 0
      then some (0, record m { stack = stack })
      else (ops.create_context m.mem >>= λ (table, mem).
          let procs = set_proc m.procs kproc (record (m.procs kproc) { ctx = table }) in
          ops.map_region table kproc_region map_alloc mem >>= λ mem'.
          some (kproc, record m { procs = procs; stack = stack; mem = mem' }))

  unfoldable pub free : Machine ops → Option (ℕ × Machine ops)
  unfolding deref
  free m = deref m.procs (Stack.peek m.stack) >>= λ kproc.
      ops.destroy_context kproc.ctx m.mem >>= λ mem.
      let stack = Stack.free m.stack in
      some (Stack.peek stack, record m { stack = stack; mem = mem })

  unfoldable pub get : Machine ops → ℕ
  get m = Stack.peek m.stack

  unfoldable pub mem_switch : ℕ → Machine ops → Option (Machine ops)
  unfolding deref
  mem_switch proc m = deref m.procs proc >>= λ kproc.
      let asid_mask = u64 (m.stack.len * 2 ^ 48) in
      some (record m { ttbr0_el1 = bit_or (strip_kernel_space kproc.ctx) asid_mask })

  unfoldable pub init : ℕ → Machine ops → Option (Machine ops)
  init prog_id m = get_elem? kproc_prog_tab prog_id >>= λ text. some (record m {
    mem = ops.copy_to_user m.ttbr0_el1 prog_offset text m.mem;
    sp_el0 = prog_offset;
    elr_el1 = prog_offset;
  })

  unfoldable pub suspend : ℕ → List ℕ → Machine ops → Option (Machine ops)
  unfolding set_proc deref
  suspend proc rs m = deref m.procs proc >>= λ kproc.
      let saved : SuspendState = (record {
        sp = m.sp_el0;
        elr = m.elr_el1;
        general_regs = take 32 rs;
      }) in
      some (record m { procs = set_proc m.procs proc (record kproc { suspend = saved }) })

  unfoldable pub restore : ℕ → List ℕ → Machine ops → Option (List ℕ × Machine ops)
  unfolding deref
  restore proc rs m = deref m.procs proc >>= λ kproc.
      let saved = kproc.suspend in
      some (saved.general_regs ++ drop 32 rs, record m { sp_el0 = saved.sp; elr_el1 = saved.elr })

  unfoldable pub start : ℕ → List ℕ → Machine ops → Option (ℕ × Machine ops)
  unfolding get mem_switch suspend alloc init
  start prog_id rs m =
      let started = mem_switch (get m) m >>= λ m1. suspend (get m) rs m1 >>= λ m2.
      alloc m2 >>= λ (proc, m3).
      mem_switch proc m3 >>= λ m4. init prog_id m4 >>= λ m5. some (ok, m5) in
      if Stack.full m.stack then some (proc_stack_full, m) else started

  unfoldable pub exec : ℕ → Machine ops → Option (Machine ops)
  unfolding alloc mem_switch init
  exec prog_id m = alloc m >>= λ (proc, m1). mem_switch proc m1 >>= λ m2. init prog_id m2

  unfoldable pub exit : List ℕ → Machine ops → Option (ℕ × List ℕ × Machine ops)
  unfolding count free mem_switch restore
  exit rs m =
      let exited = free m >>= λ (proc, m1).
      mem_switch proc m1 >>= λ m2. restore proc rs m2 >>= λ (rs', m3). some (0, rs', m3) in
      if count m == 1 then some (proc_last, rs, m) else exited
