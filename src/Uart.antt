-- ===== src/Uart.antt =====
-- dev/uart.c: the UART driver.
--
-- The device is the parameter `hw`: the volatile registers, each access a step of the device's own
-- state. `daif` is the processor's interrupt mask, which `irq_lock` and `irq_unlock` of int.h save,
-- set and restore. The `while (1)` loops run on fuel.
pub mod Reg
pub mod Init
pub mod Flags
pub mod Send
pub mod Write
pub mod Receive
pub mod Serve
mod Tests
use pi_vos.Prelude.{
  ◌/◌, ltb, ℕ, zero, suc, ◌+◌, ◌*◌, ◌%◌, ◌^◌, Bool, Option, none, some, List, [], ◌∷◌, ◌==◌,
  if◌then◌else◌, bit_or, replicate, length,
}
use pi_vos.Word.{u8, u32, test_bit}
use pi_vos.Status.{ok, minus_one, dev_io_tx_wait, dev_io_rx_wait}
use pi_vos.Buffer.Ring
use pi_vos.Buffer.Ring.{Ring}

-- Accesses to `FR`, `DR` and `MIS`; `unset_dr` is what the variable `dr`, which the code does not
-- initialise, holds before its field `DATA` is set.
pub record Hardware : Type 1 where
  pub State : Type 0
  pub read_fr : State → ℕ × State
  pub read_mis : State → ℕ × State
  pub read_dr : State → ℕ × State
  pub write_dr : ℕ → State → State
  pub unset_dr : State → ℕ

-- `struct dev_uart`, the device behind `reg`, and the interrupt mask
pub record Uart (hw : Hardware) : Type 0 where
  pub tx : Ring
  pub rx : Ring
  pub reg : hw.State
  pub daif : ℕ

-- `KDEV_UART_RING_SIZE`
abbrev pub ring_size : ℕ
ring_size = 4096

-- The bits `RXFE` and `TXFF` of `FR`, `RXMIS` and `TXMIS` of `MIS`, and the field `DATA` of `DR`
unfoldable pub rxfe : ℕ → Bool
rxfe fr = test_bit fr 4

unfoldable pub txff : ℕ → Bool
txff fr = test_bit fr 5

unfoldable pub rxmis : ℕ → Bool
rxmis mis = test_bit mis 4

unfoldable pub txmis : ℕ → Bool
txmis mis = test_bit mis 5

unfoldable pub data_field : ℕ → ℕ
data_field dr = u8 dr

-- `dr.fields.DATA = c` and the write of `dr` to the device
unfoldable pub with_data : ℕ → ℕ → ℕ
with_data dr c = u32 dr / 2 ^ 8 * 2 ^ 8 + u8 c

abbrev pub send_data : (hw : Hardware) → ℕ → hw.State → hw.State
send_data hw c s = hw.write_dr (with_data (hw.unset_dr s) c) s

-- The bound of the `int32_t` index; a step beyond it is an overflow, which is `none`.
abbrev pub idx_bound : ℕ
idx_bound = 2 ^ 31

module _ {hw : Hardware} where
  unfoldable pub irq_lock : Uart hw → ℕ × Uart hw
  irq_lock m = (m.daif, record m { daif = bit_or m.daif (2 ^ 7) })

  unfoldable pub irq_unlock : ℕ → Uart hw → Uart hw
  irq_unlock state m = record m { daif = state }

  unfoldable pub sync_write : ℕ → Uart hw → Option (ℕ × Uart hw)
  unfolding txff
  sync_write zero m = none
  sync_write (suc fuel) m =
      let (fr, reg) = hw.read_fr m.reg in
      if txff fr then some (minus_one, record m { reg = reg }) else elim (Ring.read m.tx) [
        | none ↦ some (0, record m { reg = reg })
        | some (res, tx) ↦ sync_write fuel (record m { tx = tx; reg = send_data hw res reg })
      ]

  unfoldable pub sync_read : ℕ → Uart hw → Option (ℕ × Uart hw)
  unfolding rxfe data_field
  sync_read zero m = none
  sync_read (suc fuel) m =
      let (fr, reg) = hw.read_fr m.reg in
      if rxfe fr
      then some (0, record m { reg = reg })
      else if Ring.available m.rx == 0
      then some (minus_one, record m { reg = reg })
      else let (dr, reg') = hw.read_dr reg in
        elim (Ring.write m.rx (data_field dr)) [
          | none ↦ sync_read fuel (record m { reg = reg' })
          | some rx ↦ sync_read fuel (record m { rx = rx; reg = reg' })
        ]

  -- A round of the loop takes a byte out of the ring, or puts one in, so these rounds are enough.
  unfoldable pub sync_write_all : Uart hw → Option (ℕ × Uart hw)
  unfolding sync_write
  sync_write_all m = sync_write (m.tx.size + 1) m

  unfoldable pub sync_read_all : Uart hw → Option (ℕ × Uart hw)
  unfolding sync_read
  sync_read_all m = sync_read (Ring.available m.rx + 1) m

  -- The loop of `dev_uart_kdev_write`; the list is `src[idx..n)`.
  unfoldable pub write_loop : List ℕ → ℕ → Uart hw → Option (ℕ × Uart hw)
  unfolding sync_write_all
  write_loop [] idx m = some (idx, m)
  write_loop (c ∷ src) idx m = elim (Ring.write m.tx c) [
    | none ↦ some (idx, m)
    | some tx ↦ elim (sync_write_all (record m { tx = tx })) [
      | none ↦ none
      | some (_, m') ↦
          let rest = write_loop src (idx + 1) m' in if ltb (idx + 1) idx_bound then rest else none
    ]
  ]

  unfoldable pub kdev_write : List ℕ → Uart hw → Option (ℕ × Uart hw)
  unfolding irq_lock irq_unlock write_loop
  kdev_write src m =
      let (irq_key, locked) = irq_lock m in
      elim (write_loop src 0 locked) [
        | none ↦ none
        | some (idx, m') ↦ some (idx, irq_unlock irq_key m')
      ]

  -- The loop of `dev_uart_kdev_read`, with the rounds that are left; the list is what is written from
  -- `dst[idx]` on, and its length what the returned index grows by.
  unfoldable pub read_loop : ℕ → ℕ → Uart hw → Option (List ℕ × Uart hw)
  unfolding sync_read_all
  read_loop zero idx m = some ([], m)
  read_loop (suc left) idx m = elim (sync_read_all m) [
    | none ↦ none
    | some (_, m') ↦ elim (Ring.read m'.rx) [
      | none ↦ some ([], m')
      | some (res, rx) ↦
          let rest = read_loop left (idx + 1) (record m' { rx = rx }) in
          elim (if ltb (idx + 1) idx_bound then rest else none) [
            | none ↦ none
            | some (dst, m'') ↦ some (u8 res ∷ dst, m'')
          ]
    ]
  ]

  unfoldable pub kdev_read : ℕ → Uart hw → Option (ℕ × List ℕ × Uart hw)
  unfolding irq_lock irq_unlock read_loop
  kdev_read n m =
      let (irq_key, locked) = irq_lock m in
      elim (read_loop n 0 locked) [
        | none ↦ none
        | some (dst, m') ↦ some (length dst, dst, irq_unlock irq_key m')
      ]

  unfoldable pub kdev_isr : Uart hw → Option (ℕ × Uart hw)
  unfolding sync_write_all sync_read_all txmis rxmis
  kdev_isr m =
      let (mis, reg) = hw.read_mis m.reg in
      let seen : Uart hw = record m { reg = reg } in
      let sent : Option (ℕ × Uart hw) =
        (if txmis mis then sync_write_all seen else some (ok, seen)) in
      elim sent [
        | none ↦ none
        | some (_, m1) ↦ elim (if rxmis mis then sync_read_all m1 else some (ok, m1)) [
          | none ↦ none
          | some (_, m2) ↦ some (ok, m2)
        ]
      ]

  unfoldable pub kdev_pool_out : ℕ → Uart hw → ℕ × Uart hw
  unfolding txff
  kdev_pool_out c m =
      let (fr, reg) = hw.read_fr m.reg in
      if txff fr
      then (dev_io_tx_wait, record m { reg = reg })
      else (ok, record m { reg = send_data hw c reg })

  -- The option is the byte that goes through `c`.
  unfoldable pub kdev_pool_in : Uart hw → ℕ × Option ℕ × Uart hw
  unfolding rxfe data_field
  kdev_pool_in m =
      let (fr, reg) = hw.read_fr m.reg in
      if rxfe fr
      then (dev_io_rx_wait, none, record m { reg = reg })
      else let (dr, reg') = hw.read_dr reg in (ok, some (data_field dr), record m { reg = reg' })
