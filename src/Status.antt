-- ===== src/Status.antt =====
-- include/kernel/log.h: the status codes, as the bits of an `int32_t`.
--
-- Each enumeration is `OK = 0`, `ERR = origin << 16 | 1 << 31`, and the codes that count up from it.
pub mod Codes
mod Tests
use pi_vos.Prelude.{ℕ, ◌+◌, ◌*◌, ◌-◌, ◌^◌, ◌≤◌, ◌≡◌, bit_or, Bool, leb}

-- `status < 0` of an `int32_t`
abbrev pub is_negative : ℕ → Bool
is_negative status = leb (2 ^ 31) status

-- `-1` as an `int32_t`
abbrev pub minus_one : ℕ
minus_one = 2 ^ 32 - 1

abbrev pub ok : ℕ
ok = 0

-- `enum kstatus_origin`
pub data Origin : Type 0 where
  dev : Origin
  call : Origin
  proc : Origin
  int : Origin
  utils : Origin
  dev_generic : Origin
  dev_io : Origin
  dev_gic : Origin
  dev_timer : Origin

unfoldable pub origin_number : Origin → ℕ
origin_number dev = 0
origin_number call = 1
origin_number proc = 2
origin_number int = 3
origin_number utils = 4
origin_number dev_generic = 5
origin_number dev_io = 6
origin_number dev_gic = 7
origin_number dev_timer = 8

-- `KSTATUS_*_ERR`
unfoldable pub err : Origin → ℕ
unfolding origin_number
err origin = bit_or (origin_number origin * 2 ^ 16) (2 ^ 31)

-- `enum kstatus_dev`, `kstatus_call`, `kstatus_proc`, `kstatus_dev_generic`, `kstatus_dev_io`
unfoldable pub dev_invalid : ℕ
unfolding err
dev_invalid = err dev + 1

unfoldable pub dev_already_exists : ℕ
unfolding err
dev_already_exists = err dev + 2

unfoldable pub dev_out_of_bounds : ℕ
unfolding err
dev_out_of_bounds = err dev + 3

unfoldable pub call_invalid : ℕ
unfolding err
call_invalid = err call + 1

unfoldable pub call_already_exists : ℕ
unfolding err
call_already_exists = err call + 2

unfoldable pub call_out_of_bounds : ℕ
unfolding err
call_out_of_bounds = err call + 3

unfoldable pub proc_stack_full : ℕ
unfolding err
proc_stack_full = err proc + 1

unfoldable pub proc_last : ℕ
unfolding err
proc_last = err proc + 2

unfoldable pub dev_generic_no_isr : ℕ
unfolding err
dev_generic_no_isr = err dev_generic + 1

unfoldable pub dev_io_tx_wait : ℕ
unfolding err
dev_io_tx_wait = err dev_io + 1

unfoldable pub dev_io_rx_wait : ℕ
unfolding err
dev_io_rx_wait = err dev_io + 2
