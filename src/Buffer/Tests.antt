-- ===== src/Buffer/Tests.antt =====
-- Runs of the ring on four bytes and of the stack on three cells.
use pi_vos.Prelude.{◌+◌, ◌<◌, ◌≡◌, refl, arith, [], ◌∷◌, inl, inr}
use pi_vos.Buffer.Ring
use pi_vos.Buffer.Ring.{Ring}
use pi_vos.Buffer.Ring.Window
use pi_vos.Buffer.Ring.Window.{contents}
use pi_vos.Buffer.Ring.Refine.{
  contents_of, read_contents, push, pop, write_refines, read_refines, steps-IsValid,
}
use pi_vos.Buffer.Stack
use pi_vos.Buffer.Stack.{Stack}
use pi_vos.Buffer.Stack.Cells.{cell, alloc-free}

-- The bytes 7, 8, 9, going round the end.
abbrev three_bytes : Ring
three_bytes = record {
  buffer = 9 ∷ 0 ∷ 7 ∷ 8 ∷ [];
  capacity = 4;
  size = 3;
  read_idx = 2;
  write_idx = 1;
}

three_bytes-IsValid : Window.IsValid three_bytes
three_bytes-IsValid = record {
  has_room = omega arith;
  no_wrap = omega arith;
  storage = omega arith;
  size_in = omega arith;
  read_in = omega arith;
  write_at = refl;
}

write_refines_example : contents_of (Ring.write three_bytes 5) ≡ push 4 (contents three_bytes) 5
write_refines_example = write_refines three_bytes 5 three_bytes-IsValid

read_refines_example : read_contents (Ring.read three_bytes) ≡ pop (contents three_bytes)
read_refines_example = read_refines three_bytes three_bytes-IsValid

steps-IsValid_example : Window.IsValid (Ring.free three_bytes 2).1
steps-IsValid_example =
    steps-IsValid three_bytes (Ring.free three_bytes 2).1 0 2 three_bytes-IsValid
      (inr (inr (inl refl)))

abbrev one_cell : Stack
one_cell = record { buffer = 4096; capacity = 3; len = 1; align = 280 }

one_cell-IsValid : Stack.IsValid one_cell
one_cell-IsValid = record {
  len_in = omega arith;
  align_pos = omega arith;
  cells = omega arith;
  not_null = omega arith;
  no_wrap = omega arith;
}

alloc-free_example :
    (Stack.alloc one_cell ≡ (cell one_cell 1, record one_cell { len = 1 + 1 }))
    × (0 < (Stack.alloc one_cell).0)
    × Stack.IsValid (Stack.alloc one_cell).1
    × (Stack.free (Stack.alloc one_cell).1 ≡ one_cell)
alloc-free_example = alloc-free one_cell one_cell-IsValid (omega arith)
