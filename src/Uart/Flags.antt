-- ===== src/Uart/Flags.antt =====
-- dev/uart.c: the bits that the driver tests are the fields of the registers' unions.
use pi_vos.Prelude.{ℕ, ◌≡◌, arith, ◌==◌}
use pi_vos.Word.{test_bit}
use pi_vos.Register.{get_field, offset, width_of}
use pi_vos.Uart.{txff, rxfe, txmis, rxmis, data_field}
use pi_vos.Uart.Reg.{uart_fr, uart_mis, uart_dr}

-- Each test of the driver and its data byte is the field of that name in the register, whatever the
-- register holds.
pub flags_lem :
    (bits : ℕ)
    → (txff bits ≡ (get_field uart_fr "TXFF" bits == 1))
      × (rxfe bits ≡ (get_field uart_fr "RXFE" bits == 1))
      × (txmis bits ≡ (get_field uart_mis "TXMIS" bits == 1))
      × (rxmis bits ≡ (get_field uart_mis "RXMIS" bits == 1))
      × (data_field bits ≡ get_field uart_dr "DATA" bits)
unfolding test_bit txff rxfe txmis rxmis data_field get_field offset width_of
flags_lem bits = (ground arith, ground arith, ground arith, ground arith, omega arith)
