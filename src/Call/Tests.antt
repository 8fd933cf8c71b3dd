-- ===== src/Call/Tests.antt =====
-- Calls that count, in the table of `KCALL_BUFFER_SIZE` entries.
use pi_vos.Prelude.{ℕ, ◌≡◌, refl, arith, some, none, ◌==◌, if◌then◌else◌, replicate}
use pi_vos.Word.{u16}
use pi_vos.Call.{Table, buffer_size, dispatch}
use pi_vos.Call.Lookup.{dispatch-bound}

abbrev calls : Table ℕ
calls = replicate buffer_size none

dispatch-bound_example :
    dispatch (λ n. 0) calls 1024 7 ≡ (if u16 1024 == buffer_size then none else some 0)
dispatch-bound_example = dispatch-bound 1024 (λ n. 0) calls 7 refl (omega arith)
