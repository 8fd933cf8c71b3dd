-- ===== src/Buffer/Ring.antt =====
-- include/kernel/buffer/ring.h. A result of -1 is `none`; a call that fails changes nothing.
pub mod Window
pub mod Refine
use pi_vos.Prelude.{ℕ, ◌+◌, ◌%◌, Option, none, some, List, ◌==◌, ltb, set, get_or, if◌then◌else◌}
use pi_vos.Word.{u32, sub32}

-- `struct kbuffer_ring`
pub record Ring : Type 0 where
  pub buffer : List ℕ
  pub capacity : ℕ
  pub size : ℕ
  pub read_idx : ℕ
  pub write_idx : ℕ

-- `KBUFFER_RING_INIT`
unfoldable pub init : ℕ → List ℕ → Ring
init capacity buffer = record {
  buffer = buffer;
  capacity = capacity;
  size = 0;
  read_idx = 0;
  write_idx = 0;
}

unfoldable pub write : Ring → ℕ → Option Ring
write r c =
    if r.size == r.capacity
    then none
    else some (record r {
      buffer = set r.buffer r.write_idx c;
      write_idx = u32 (r.write_idx + 1) % r.capacity;
      size = u32 (r.size + 1);
    })

unfoldable pub read : Ring → Option (ℕ × Ring)
read r =
    if r.size == 0
    then none
    else some (
      get_or r.buffer r.read_idx 0,
      record r { read_idx = u32 (r.read_idx + 1) % r.capacity; size = sub32 r.size 1 },
    )

unfoldable pub free : Ring → ℕ → ℕ × Ring
free r n =
    let to_free = (if ltb r.size n then r.size else n) in
    (
      to_free,
      record r { read_idx = u32 (r.read_idx + to_free) % r.capacity; size = sub32 r.size to_free },
    )

unfoldable pub available : Ring → ℕ
available r = sub32 r.capacity r.size

unfoldable pub reset : Ring → Ring
reset r = record r { size = 0; read_idx = 0; write_idx = 0 }
