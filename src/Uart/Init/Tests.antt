-- ===== src/Uart/Init/Tests.antt =====
-- The first UART, on registers that hold ones.
use pi_vos.Prelude.{ℕ, ◌+◌, ◌≡◌, arith, none, some, [], ◌∷◌}
use pi_vos.Buffer.Ring.Window.{IsValid}
use pi_vos.Register.{get_field}
use pi_vos.Uart.Reg.{uart_lcrh, uart_imsc, uart_ifls, uart_cr}
use pi_vos.Uart.Init.{Driver, Impl, reg_of, at, init}
use pi_vos.Uart.Init.Enabled.{keeping, init_lem}

abbrev start : Driver keeping
start = record {
  impls = λ i. none;
  kdevs = λ i. none;
  state = record { values = λ addr. 0xFFFFFFFF; writes = [] };
}

init_lem_example :
    let reg = reg_of 0 in
    (out : Driver keeping) × (impl : Impl) × (init keeping 0 start ≡ some (0, out))
    × (out.impls 0 ≡ some impl)
    × (impl.reg ≡ reg)
    × IsValid impl.tx
    × IsValid impl.rx
    × (impl.tx.size + impl.rx.size ≡ 0)
    × (out.impls 1 ≡ start.impls 1)
    × (lcrh imsc ifls cr : ℕ) × (out.state.writes
        ≡ (at reg "CR", cr)
          ∷ (at reg "IFLS", ifls)
          ∷ (at reg "IMSC", imsc)
          ∷ (at reg "LCRH", lcrh)
          ∷ (at reg "FBRD", 0)
          ∷ (at reg "IBRD", 26)
          ∷ (at reg "CR", 0)
          ∷ start.state.writes)
    × ((get_field uart_lcrh "WLEN" lcrh ≡ 3)
        × (get_field uart_lcrh "FEN" lcrh ≡ 1)
        × (get_field uart_lcrh "PEN" lcrh ≡ 0)
        × (get_field uart_imsc "RXIM" imsc ≡ 1)
        × (get_field uart_imsc "TXIM" imsc ≡ 1)
        × (get_field uart_imsc "RTIM" imsc ≡ 0)
        × (get_field uart_cr "UARTEN" cr ≡ 1)
        × (get_field uart_cr "TXE" cr ≡ 1)
        × (get_field uart_cr "RXE" cr ≡ 1)
        × (get_field uart_cr "RTSEN" cr ≡ 0)
        × (get_field uart_cr "CTSEN" cr ≡ 0))
    × ((get_field uart_ifls "TXIFLSEL" ifls ≡ 2)
        × (get_field uart_ifls "RXIFLSEL" ifls ≡ 2)
        × (get_field uart_ifls "TXIFPSEL" ifls
            ≡ get_field uart_ifls "TXIFPSEL" (start.state.values (at reg "IFLS"))))
init_lem_example = init_lem 0 1 start (omega arith) (omega arith)
