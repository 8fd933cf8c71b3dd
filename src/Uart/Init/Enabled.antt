-- ===== src/Uart/Init/Enabled.antt =====
-- dev/uart.c: what `dev_uart_init` leaves in registers that keep what is written to them.
use pi_vos.Prelude.{
  ℕ, ◌+◌, ◌<◌, ◌≡◌, ◌≢◌, refl, arith, ◌∙◌, true, false, some, List, ◌∷◌, ltb, ◌==◌, if◌then◌else◌,
  length-replicate,
}
use pi_vos.Buffer.Ring
use pi_vos.Buffer.Ring.{Ring}
use pi_vos.Buffer.Ring.Window.{IsValid}
use pi_vos.Register.{offset, width_of, has, get_field, set_field}
use pi_vos.Register.Fields.{get_field-set_field}
use pi_vos.Uart.{ring_size}
use pi_vos.Uart.Reg.{uart_struct, uart_lcrh, uart_imsc, uart_ifls, uart_cr}
use pi_vos.Uart.Init.{
  Bus, Driver, Impl, uart_count, reg_of, at, new_ring, new_lcrh, new_imsc, new_ifls, new_cr,
  setup_registers, init, Kdev, dev_uart_kdev_isr, dev_uart_kdev_write, dev_uart_kdev_read,
  dev_uart_kdev_pool_in, dev_uart_kdev_pool_out,
}

-- Registers that keep what is written to them, and the writes, the last one first.
pub record Registers : Type 0 where
  pub values : ℕ → ℕ
  pub writes : List (ℕ × ℕ)

abbrev pub keeping : Bus
keeping = record {
  State = Registers;
  read = λ addr s. (s.values addr, s);
  write = λ addr value s. record {
    values = λ other. if other == addr then value else s.values other;
    writes = (addr, value) ∷ s.writes;
  };
}

new_ring-IsValid : IsValid new_ring
unfolding Ring.init
new_ring-IsValid = record {
  has_room = omega arith;
  no_wrap = omega arith;
  storage = omega (arith, length-replicate {A = ℕ} ring_size 0);
  size_in = omega arith;
  read_in = omega arith;
  write_at = omega arith;
}

-- The values that are written have the meant fields.
new_values :
    (get_field uart_lcrh "WLEN" new_lcrh ≡ 3)
    × (get_field uart_lcrh "FEN" new_lcrh ≡ 1)
    × (get_field uart_lcrh "PEN" new_lcrh ≡ 0)
    × (get_field uart_imsc "RXIM" new_imsc ≡ 1)
    × (get_field uart_imsc "TXIM" new_imsc ≡ 1)
    × (get_field uart_imsc "RTIM" new_imsc ≡ 0)
    × (get_field uart_cr "UARTEN" new_cr ≡ 1)
    × (get_field uart_cr "TXE" new_cr ≡ 1)
    × (get_field uart_cr "RXE" new_cr ≡ 1)
    × (get_field uart_cr "RTSEN" new_cr ≡ 0)
    × (get_field uart_cr "CTSEN" new_cr ≡ 0)
unfolding get_field set_field offset width_of
new_values = (refl, refl, refl, refl, refl, refl, refl, refl, refl, refl, refl)

module _ (bits : ℕ) where
  widths :
      (has "TXIFLSEL" uart_ifls ≡ true)
      × (has "RXIFLSEL" uart_ifls ≡ true)
      × (has "TXIFPSEL" uart_ifls ≡ true)
      × (width_of "TXIFLSEL" uart_ifls ≡ 3)
      × (width_of "RXIFLSEL" uart_ifls ≡ 3)
  unfolding has width_of
  widths = (refl, refl, refl, refl, refl)

  -- Both trigger levels are set, and the field behind them is left alone.
  new_ifls_lem :
      (get_field uart_ifls "TXIFLSEL" (new_ifls bits) ≡ 2)
      × (get_field uart_ifls "RXIFLSEL" (new_ifls bits) ≡ 2)
      × (get_field uart_ifls "TXIFPSEL" (new_ifls bits) ≡ get_field uart_ifls "TXIFPSEL" bits)
  new_ifls_lem =
      let rx : ℕ = set_field uart_ifls "RXIFLSEL" 2 bits in
      let tx_rx = get_field-set_field uart_ifls "TXIFLSEL" "RXIFLSEL" 2 rx refl widths.0 widths.1 in
      let tx_p = get_field-set_field uart_ifls "TXIFLSEL" "TXIFPSEL" 2 rx refl widths.0 widths.2 in
      let rx_p =
        get_field-set_field uart_ifls "RXIFLSEL" "TXIFPSEL" 2 bits refl widths.1 widths.2 in
      (tx_rx.0 ∙ rw (widths.3) refl, tx_rx.1 ∙ (rx_p.0 ∙ rw (widths.4) refl), tx_p.1 ∙ rx_p.1)

-- The offsets of the registers that the setup accesses.
offsets :
    (offset "CR" uart_struct ≡ 0x30)
    × (offset "IBRD" uart_struct ≡ 0x24)
    × (offset "FBRD" uart_struct ≡ 0x28)
    × (offset "LCRH" uart_struct ≡ 0x2C)
    × (offset "IMSC" uart_struct ≡ 0x38)
    × (offset "IFLS" uart_struct ≡ 0x34)
unfolding offset
offsets = (refl, refl, refl, refl, refl, refl)

setup_registers_lem :
    (reg : ℕ) (s : Registers)
    → (setup_registers keeping reg s).writes
      ≡ (at reg "CR", new_cr)
        ∷ (at reg "IFLS", new_ifls (s.values (at reg "IFLS")))
        ∷ (at reg "IMSC", new_imsc)
        ∷ (at reg "LCRH", new_lcrh)
        ∷ (at reg "FBRD", 0)
        ∷ (at reg "IBRD", 26)
        ∷ (at reg "CR", 0)
        ∷ s.writes
unfolding setup_registers
setup_registers_lem reg s =
    let (o_cr, o_ibrd, o_fbrd, o_lcrh, o_imsc, o_ifls) = offsets in
    let imsc : (at reg "IFLS" == at reg "IMSC") ≡ false = ground arith in
    let lcrh : (at reg "IFLS" == at reg "LCRH") ≡ false = ground arith in
    let fbrd : (at reg "IFLS" == at reg "FBRD") ≡ false = ground arith in
    let ibrd : (at reg "IFLS" == at reg "IBRD") ≡ false = ground arith in
    let cr : (at reg "IFLS" == at reg "CR") ≡ false = ground arith in
    rw (imsc, lcrh, fbrd, ibrd, cr) refl

-- The initialisation of one of the ten UARTs succeeds. It turns the device off, then sets the baud
-- rate, the line to eight bits with the queues on and no parity, the interrupts for received and
-- sent bytes and no time-out, and both trigger levels, with the field behind these left as it was,
-- and turns the device on for both directions, without flow control, in this order and with no other
-- write. Both rings are valid and empty, and the other drivers are left alone.
pub init_lem :
    (uart_id other : ℕ) (d : Driver keeping)
    → uart_id < 10
    → other ≢ uart_id
    → let reg = reg_of uart_id in
      (out : Driver keeping) × (impl : Impl) × (init keeping uart_id d ≡ some (0, out))
      × (out.impls uart_id ≡ some impl)
      × (impl.reg ≡ reg)
      × IsValid impl.tx
      × IsValid impl.rx
      × (impl.tx.size + impl.rx.size ≡ 0)
      × (out.impls other ≡ d.impls other)
      × (lcrh imsc ifls cr : ℕ) × (out.state.writes
          ≡ (at reg "CR", cr)
            ∷ (at reg "IFLS", ifls)
            ∷ (at reg "IMSC", imsc)
            ∷ (at reg "LCRH", lcrh)
            ∷ (at reg "FBRD", 0)
            ∷ (at reg "IBRD", 26)
            ∷ (at reg "CR", 0)
            ∷ d.state.writes)
      × ((get_field uart_lcrh "WLEN" lcrh ≡ 3)
          × (get_field uart_lcrh "FEN" lcrh ≡ 1)
          × (get_field uart_lcrh "PEN" lcrh ≡ 0)
          × (get_field uart_imsc "RXIM" imsc ≡ 1)
          × (get_field uart_imsc "TXIM" imsc ≡ 1)
          × (get_field uart_imsc "RTIM" imsc ≡ 0)
          × (get_field uart_cr "UARTEN" cr ≡ 1)
          × (get_field uart_cr "TXE" cr ≡ 1)
          × (get_field uart_cr "RXE" cr ≡ 1)
          × (get_field uart_cr "RTSEN" cr ≡ 0)
          × (get_field uart_cr "CTSEN" cr ≡ 0))
      × ((get_field uart_ifls "TXIFLSEL" ifls ≡ 2)
          × (get_field uart_ifls "RXIFLSEL" ifls ≡ 2)
          × (get_field uart_ifls "TXIFPSEL" ifls
              ≡ get_field uart_ifls "TXIFPSEL" (d.state.values (at reg "IFLS"))))
unfolding init Ring.init
init_lem uart_id other d h apart =
    let reg : ℕ = reg_of uart_id in
    let impl : Impl = record { reg = reg; tx = new_ring; rx = new_ring } in
    let yes : ltb uart_id uart_count ≡ true = ground arith in
    let here : (uart_id == uart_id) ≡ true = ground arith in
    let there : (other == uart_id) ≡ false = ground arith in
    let kdev : Kdev = record {
      ctx = uart_id;
      isr = dev_uart_kdev_isr;
      write = dev_uart_kdev_write;
      read = dev_uart_kdev_read;
      pool_in = dev_uart_kdev_pool_in;
      pool_out = dev_uart_kdev_pool_out;
    } in
    (
      record {
        impls = λ i. if i == uart_id then some impl else d.impls i;
        kdevs = λ i. if i == uart_id then some kdev else d.kdevs i;
        state = setup_registers keeping reg d.state;
      },
      impl,
      rw yes refl,
      rw here refl,
      refl,
      new_ring-IsValid,
      new_ring-IsValid,
      refl,
      rw there refl,
      new_lcrh,
      new_imsc,
      new_ifls (d.state.values (at reg "IFLS")),
      new_cr,
      setup_registers_lem reg d.state,
      new_values,
      new_ifls_lem (d.state.values (at reg "IFLS")),
    )
