-- ===== src/Uart/Init.antt =====
-- dev/uart.c: `dev_uart_init`.
--
-- The registers are behind a bus: an access at an address, a step of the state of what hangs on it.
-- `none` is an identifier out of the arrays.
pub mod Enabled
mod Tests
use pi_vos.Prelude.{ℕ, ◌+◌, ◌*◌, Option, none, some, ltb, ◌==◌, if◌then◌else◌, replicate}
use pi_vos.Word.{u64}
use pi_vos.Buffer.Ring
use pi_vos.Buffer.Ring.{Ring}
use pi_vos.Register.{offset, set_field}
use pi_vos.Uart.{ring_size}
use pi_vos.Uart.Reg.{uart_address, uart_struct, uart_lcrh, uart_imsc, uart_ifls, uart_cr}
use Prim.Native.String.{String}

pub record Bus : Type 1 where
  pub State : Type 0
  pub read : ℕ → State → ℕ × State
  pub write : ℕ → ℕ → State → State

-- `KDEV_UART_COUNT`
abbrev pub uart_count : ℕ
uart_count = 10

-- `struct dev_uart`, whose rings hold their buffers
pub record Impl : Type 0 where
  pub reg : ℕ
  pub tx : Ring
  pub rx : Ring

-- The functions that `struct kdev_io` of the driver points to.
pub data Function : Type 0 where
  dev_uart_kdev_isr : Function
  dev_uart_kdev_write : Function
  dev_uart_kdev_read : Function
  dev_uart_kdev_pool_in : Function
  dev_uart_kdev_pool_out : Function

-- `struct kdev_io` of type `KDEV_IO`; `ctx` is the index in `uart_impls`
pub record Kdev : Type 0 where
  pub ctx : ℕ
  pub isr : Function
  pub write : Function
  pub read : Function
  pub pool_in : Function
  pub pool_out : Function

-- `uart_impls` and `uart_kdevs`, and the bus
pub record Driver (bus : Bus) : Type 0 where
  pub impls : ℕ → Option Impl
  pub kdevs : ℕ → Option Kdev
  pub state : bus.State

unfoldable pub reg_of : ℕ → ℕ
reg_of uart_id = u64 (uart_address + 0x200 * uart_id)

-- `&reg->name`
abbrev pub at : ℕ → String → ℕ
at reg name = reg + offset name uart_struct

abbrev new_ring : Ring
new_ring = Ring.init ring_size (replicate ring_size 0)

-- The values of the registers that are built from fields.
abbrev pub new_lcrh : ℕ
new_lcrh = set_field uart_lcrh "FEN" 1 (set_field uart_lcrh "WLEN" 3 0)

abbrev pub new_imsc : ℕ
new_imsc = set_field uart_imsc "RXIM" 1 (set_field uart_imsc "TXIM" 1 0)

abbrev pub new_ifls : ℕ → ℕ
new_ifls bits = set_field uart_ifls "TXIFLSEL" 2 (set_field uart_ifls "RXIFLSEL" 2 bits)

abbrev pub new_cr : ℕ
new_cr = set_field uart_cr "RTSEN" 0 (
    set_field uart_cr "CTSEN" 0
      (set_field uart_cr "RXE" 1 (set_field uart_cr "TXE" 1 (set_field uart_cr "UARTEN" 1 0))))

module _ (bus : Bus) where
  -- The accesses of the initialisation to the registers at `reg`.
  unfoldable pub setup_registers : ℕ → bus.State → bus.State
  setup_registers reg s0 =
      let s1 = bus.write (at reg "CR") 0 s0 in
      let s2 = bus.write (at reg "IBRD") 26 s1 in
      let s3 = bus.write (at reg "FBRD") 0 s2 in
      let s4 = bus.write (at reg "LCRH") new_lcrh s3 in
      let s5 = bus.write (at reg "IMSC") new_imsc s4 in
      let (ifls, s6) = bus.read (at reg "IFLS") s5 in
      let s7 = bus.write (at reg "IFLS") (new_ifls ifls) s6 in bus.write (at reg "CR") new_cr s7

  unfoldable pub init : ℕ → Driver bus → Option (ℕ × Driver bus)
  unfolding setup_registers reg_of
  init uart_id d =
      let reg = reg_of uart_id in
      let impl : Impl = record { reg = reg; tx = new_ring; rx = new_ring } in
      let kdev : Kdev = record {
        ctx = uart_id;
        isr = dev_uart_kdev_isr;
        write = dev_uart_kdev_write;
        read = dev_uart_kdev_read;
        pool_in = dev_uart_kdev_pool_in;
        pool_out = dev_uart_kdev_pool_out;
      } in
      if ltb uart_id uart_count
      then some (
        0,
        record {
          impls = λ i. if i == uart_id then some impl else d.impls i;
          kdevs = λ i. if i == uart_id then some kdev else d.kdevs i;
          state = setup_registers reg d.state;
        },
      )
      else none
