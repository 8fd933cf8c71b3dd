-- ===== src/Buffer/Stack/Cells.antt =====
-- stack.h: the cells that a stack hands out.
use pi_vos.Prelude.{ℕ, ◌+◌, ◌*◌, ◌-◌, ◌^◌, ◌≤◌, ◌<◌, ◌≡◌, arith, ap, refl, ◌∙◌}
use native.Mathlib.Nat.{mul-le-mul_left, mul-le-mul_right}
use pi_vos.Word.{u32, sub32}
use pi_vos.Buffer.Stack.{Stack, IsValid, full, peek, alloc, free}

-- The address of cell `i`.
abbrev pub cell : Stack → ℕ → ℕ
cell stack i = stack.buffer + i * stack.align

pub capacity_small : (s : Stack) → IsValid s → s.capacity < 2 ^ 32
capacity_small s v = omega (arith, v, mul-le-mul_left {m = 1} {n = s.align} s.capacity v.align_pos)

-- `peek` on a stack that is not empty gives the address of its last cell.
pub peek-cell : (s : Stack) → IsValid s → 0 < s.len → peek s ≡ cell s (s.len - 1)
unfolding peek
peek-cell s v h = ground (arith, v, inside, offset)
  where
    inside : (s.len - 1) * s.align ≤ s.capacity * s.align
    inside = mul-le-mul_right s.align (omega (arith, v))

    last : sub32 s.len 1 ≡ s.len - 1
    last = omega (arith, v, capacity_small s v)

    offset : u32 (sub32 s.len 1 * s.align) ≡ (s.len - 1) * s.align
    offset = ap (λ i. u32 (i * s.align)) last ∙ omega (arith, v, inside)

pub grown-IsValid :
    (s : Stack) → IsValid s → s.len < s.capacity → IsValid (record s { len = s.len + 1 })
grown-IsValid s v h = record {
  len_in = omega arith;
  align_pos = v.align_pos;
  cells = v.cells;
  not_null = v.not_null;
  no_wrap = v.no_wrap;
}

alloc_fits :
    (s : Stack)
    → IsValid s
    → s.len < s.capacity
    → alloc s ≡ (cell s s.len, record s { len = s.len + 1 })
unfolding alloc full
alloc_fits s v h = ground (arith, v, count, address)
  where
    count : u32 (s.len + 1) ≡ s.len + 1
    count = omega (arith, v, capacity_small s v)

    address : peek (record s { len = s.len + 1 }) ≡ cell s s.len
    address =
        peek-cell (record s { len = s.len + 1 }) (grown-IsValid s v h) (omega arith)
        ∙ ap (cell s) (omega arith)

-- A valid stack that is not full hands out the next cell, which is not null, and stays valid with one
-- cell more; `free` gives back the stack as it was, and so the cell that was the top before.
pub alloc-free :
    (s : Stack)
    → IsValid s
    → s.len < s.capacity
    → (alloc s ≡ (cell s s.len, record s { len = s.len + 1 }))
      × (0 < (alloc s).0)
      × IsValid (alloc s).1
      × (free (alloc s).1 ≡ s)
unfolding free
alloc-free s v h =
    rw (alloc_fits s v h)
      (refl, omega (arith, v), grown-IsValid s v h, ground (arith, v, capacity_small s v))

-- A valid stack that is not empty stays valid when its last cell is given back.
pub free_lem : (s : Stack) → IsValid s → 0 < s.len → free s ≡ record s { len = s.len - 1 }
unfolding free
free_lem s v h = ground (arith, v, capacity_small s v)

pub shrunk-IsValid : (s : Stack) → IsValid s → IsValid (record s { len = s.len - 1 })
shrunk-IsValid s v = record {
  len_in = omega (arith, v);
  align_pos = v.align_pos;
  cells = v.cells;
  not_null = v.not_null;
  no_wrap = v.no_wrap;
}
