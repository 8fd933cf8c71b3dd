-- ===== src/Call.antt =====
-- call.c: the table of system calls. A call is a change of the caller's state, which holds the saved
-- registers `rs`; the table is a list of `KCALL_BUFFER_SIZE` entries, `none` for a null pointer.
pub mod Lookup
mod Tests
use pi_vos.Prelude.{
  ℕ, ◌+◌, ◌^◌, ◌≤◌, ◌<◌, ◌≡◌, ◌≢◌, Bool, Option, none, some, List, ltb, leb, set, get_elem?, get_or,
  replicate, length, if◌then◌else◌, arith,
}
use pi_vos.Word.{u16}
use pi_vos.Status.{call_out_of_bounds, call_already_exists}

-- `KCALL_BUFFER_SIZE`
abbrev pub buffer_size : ℕ
buffer_size = 1024

abbrev pub Table : Type 0 → Type 0
Table Machine = List (Option (Machine → Machine))

-- The static array before any call is registered.
unfoldable pub empty_table : (Machine : Type 0) → Table Machine
empty_table Machine = replicate buffer_size none

module _ {Machine : Type 0} where
  unfoldable pub register : ℕ → (Machine → Machine) → Table Machine → ℕ × Table Machine
  register call_id call kcalls =
      if leb buffer_size call_id
      then (call_out_of_bounds, kcalls)
      else elim (get_or kcalls call_id none) [
        | some _ ↦ (call_already_exists, kcalls)
        | none ↦ (call_id, set kcalls call_id (some call))
      ]

  -- `unsupported` is `kcall_unsupported`. `none` is an access out of the table: the guard lets
  -- `call_id = KCALL_BUFFER_SIZE` through.
  unfoldable pub dispatch : (Machine → Machine) → Table Machine → ℕ → Machine → Option Machine
  dispatch unsupported kcalls esr m =
      let call_id = u16 esr in
      if ltb buffer_size call_id then some (unsupported m) else elim (get_elem? kcalls call_id) [
        | none ↦ none
        | some none ↦ some (unsupported m)
        | some (some call) ↦ some (call m)
      ]
