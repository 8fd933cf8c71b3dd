-- ===== src/Bytes/Tests.antt =====
-- Memory in which each byte holds the low bits of its address.
use pi_vos.Prelude.{ℕ, ◌+◌, ◌%◌, ◌^◌, ◌≤◌, ◌<◌, ◌≡◌, arith, none, some, ◌⊎◌}
use pi_vos.Word.{u8}
use pi_vos.Bytes.{Bytes, memset, memcpy, bytecmp}
use pi_vos.Bytes.Libc.{libc_never, memset_lem, memcpy_lem}
use pi_vos.Bytes.Compare.{IsSame, Differs, bytecmp_lem}

abbrev ramp : Bytes
ramp addr = addr % 256

libc_never_example :
    (memset 1000 100 7 (2 ^ 32) ramp ≡ none) × (memcpy 1000 100 200 (2 ^ 32) ramp ≡ none)
libc_never_example = libc_never 1000 100 7 200 (2 ^ 32) ramp (omega arith)

memset_lem_example :
    (out : Bytes) × (memset 20 100 7 10 ramp ≡ some (100, out))
    × ((j : ℕ) → j < 10 → out (100 + j) ≡ u8 7)
    × ((addr : ℕ) → (addr < 100) ⊎ (100 + 10 ≤ addr) → out addr ≡ ramp addr)
memset_lem_example = memset_lem 20 100 7 10 ramp (omega arith) (omega arith) (omega arith)

-- the ranges overlap, and the source is the higher one
memcpy_lem_example :
    (out : Bytes) × (memcpy 20 100 104 10 ramp ≡ some (100, out))
    × ((j : ℕ) → j < 10 → out (100 + j) ≡ u8 (ramp (104 + j)))
    × ((addr : ℕ) → (addr < 100) ⊎ (100 + 10 ≤ addr) → out addr ≡ ramp addr)
memcpy_lem_example =
    memcpy_lem 20 100 104 10 ramp (omega arith) (omega arith) (omega arith) (omega arith)
      (omega arith)

bytecmp_lem_example :
    ((bytecmp 20 100 356 10 ramp ≡ some 0)
      × IsSame 100 356 10 ramp (omega arith) (omega arith) (omega arith) 10)
    ⊎ ((bytecmp 20 100 356 10 ramp ≡ some 1)
        × Differs 100 356 10 ramp (omega arith) (omega arith) (omega arith))
bytecmp_lem_example =
    bytecmp_lem 100 356 10 ramp (omega arith) (omega arith) (omega arith) 20 (omega arith)
