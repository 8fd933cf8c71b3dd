-- ===== src/Uart/Reg.antt =====
-- include/kernel/dev/uart/reg.h: the registers of the UART, each a list of its fields from bit 0 on,
-- and `struct uart`, the list of its registers and gaps with their sizes in bytes.
use pi_vos.Prelude.{ℕ, ◌+◌, [], ◌∷◌}
use pi_vos.Register.{Layout}
use pi_vos.Word.{kernel_space_mask}

-- `UART_ADDRESS`
abbrev pub uart_address : ℕ
uart_address = 0xFE201000 + kernel_space_mask

abbrev pub uart_dr : Layout
uart_dr = ("DATA", 8) ∷ ("FE", 1) ∷ ("PE", 1) ∷ ("BE", 1) ∷ ("OE", 1) ∷ ("RES0", 20) ∷ []

abbrev pub uart_rsrecr : Layout
uart_rsrecr = ("FE", 1) ∷ ("PE", 1) ∷ ("BE", 1) ∷ ("OE", 1) ∷ ("RES0", 28) ∷ []

abbrev pub uart_fr : Layout
uart_fr =
    ("CTS", 1)
    ∷ ("DSR", 1)
    ∷ ("DCD", 1)
    ∷ ("BUSY", 1)
    ∷ ("RXFE", 1)
    ∷ ("TXFF", 1)
    ∷ ("RXFF", 1)
    ∷ ("TXFE", 1)
    ∷ ("RI", 1)
    ∷ ("RES0", 23)
    ∷ []

abbrev pub uart_ilpr : Layout
uart_ilpr = []

abbrev pub uart_ibrd : Layout
uart_ibrd = ("IBRD", 16) ∷ ("RES0", 16) ∷ []

abbrev pub uart_fbrd : Layout
uart_fbrd = ("FBRD", 6) ∷ ("RES0", 26) ∷ []

abbrev pub uart_lcrh : Layout
uart_lcrh =
    ("BRK", 1)
    ∷ ("PEN", 1)
    ∷ ("EPS", 1)
    ∷ ("STP2", 1)
    ∷ ("FEN", 1)
    ∷ ("WLEN", 2)
    ∷ ("SPS", 1)
    ∷ ("RES0", 24)
    ∷ []

abbrev pub uart_cr : Layout
uart_cr =
    ("UARTEN", 1)
    ∷ ("SIREN", 1)
    ∷ ("SIRLP", 1)
    ∷ ("RES0", 4)
    ∷ ("LBE", 1)
    ∷ ("TXE", 1)
    ∷ ("RXE", 1)
    ∷ ("DTR", 1)
    ∷ ("RTS", 1)
    ∷ ("OUT1", 1)
    ∷ ("OUT2", 1)
    ∷ ("RTSEN", 1)
    ∷ ("CTSEN", 1)
    ∷ ("RES1", 16)
    ∷ []

abbrev pub uart_ifls : Layout
uart_ifls =
    ("TXIFLSEL", 3) ∷ ("RXIFLSEL", 3) ∷ ("TXIFPSEL", 3) ∷ ("RXIFPSEL", 3) ∷ ("RES0", 20) ∷ []

abbrev pub uart_imsc : Layout
uart_imsc =
    ("RIMIM", 1)
    ∷ ("CTSMIM", 1)
    ∷ ("DCDMIM", 1)
    ∷ ("DSRMIM", 1)
    ∷ ("RXIM", 1)
    ∷ ("TXIM", 1)
    ∷ ("RTIM", 1)
    ∷ ("FEIM", 1)
    ∷ ("PEIM", 1)
    ∷ ("BEIM", 1)
    ∷ ("OEIM", 1)
    ∷ ("RES0", 21)
    ∷ []

abbrev pub uart_ris : Layout
uart_ris =
    ("RIRMIS", 1)
    ∷ ("CTSRMIS", 1)
    ∷ ("DCDRMIS", 1)
    ∷ ("DSRRMIS", 1)
    ∷ ("RXRIS", 1)
    ∷ ("TXRIS", 1)
    ∷ ("RTRIS", 1)
    ∷ ("FERIS", 1)
    ∷ ("PERIS", 1)
    ∷ ("BERIS", 1)
    ∷ ("OERIS", 1)
    ∷ ("RES0", 21)
    ∷ []

abbrev pub uart_mis : Layout
uart_mis =
    ("RIMMIS", 1)
    ∷ ("CTSMMIS", 1)
    ∷ ("DCDMMIS", 1)
    ∷ ("DSRMMIS", 1)
    ∷ ("RXMIS", 1)
    ∷ ("TXMIS", 1)
    ∷ ("RTMIS", 1)
    ∷ ("FEMIS", 1)
    ∷ ("PEMIS", 1)
    ∷ ("BEMIS", 1)
    ∷ ("OEMIS", 1)
    ∷ ("RES0", 21)
    ∷ []

abbrev pub uart_icr : Layout
uart_icr =
    ("RIMIC", 1)
    ∷ ("CTSMIC", 1)
    ∷ ("DCDMIC", 1)
    ∷ ("DSRMIC", 1)
    ∷ ("RXIC", 1)
    ∷ ("TXIC", 1)
    ∷ ("RTIC", 1)
    ∷ ("FEIC", 1)
    ∷ ("PEIC", 1)
    ∷ ("BEIC", 1)
    ∷ ("OEIC", 1)
    ∷ ("RES0", 21)
    ∷ []

abbrev pub uart_dmacr : Layout
uart_dmacr = ("RXDMAE", 1) ∷ ("TXDMAE", 1) ∷ ("DMAONERR", 1) ∷ ("RES0", 29) ∷ []

abbrev pub uart_itcr : Layout
uart_itcr = ("ITCR0", 1) ∷ ("ITCR1", 1) ∷ ("RES0", 30) ∷ []

abbrev pub uart_itip : Layout
uart_itip = ("ITIP0", 1) ∷ ("RES0", 2) ∷ ("ITIP3", 1) ∷ ("RES1", 28) ∷ []

abbrev pub uart_itop : Layout
uart_itop =
    ("ITOP0", 1)
    ∷ ("RES0", 2)
    ∷ ("ITOP3", 1)
    ∷ ("RES1", 2)
    ∷ ("ITOP6", 1)
    ∷ ("ITOP7", 1)
    ∷ ("ITOP8", 1)
    ∷ ("ITOP9", 1)
    ∷ ("ITOP10", 1)
    ∷ ("ITOP11", 1)
    ∷ ("RES2", 20)
    ∷ []

abbrev pub uart_tdr : Layout
uart_tdr = ("TDR10_0", 11) ∷ ("RES0", 21) ∷ []

-- `struct uart`
abbrev pub uart_struct : Layout
uart_struct =
    ("DR", 4)
    ∷ ("RSRECR", 4)
    ∷ ("RES0", 16)
    ∷ ("FR", 4)
    ∷ ("RES1", 4)
    ∷ ("ILPR", 4)
    ∷ ("IBRD", 4)
    ∷ ("FBRD", 4)
    ∷ ("LCRH", 4)
    ∷ ("CR", 4)
    ∷ ("IFLS", 4)
    ∷ ("IMSC", 4)
    ∷ ("RIS", 4)
    ∷ ("MIS", 4)
    ∷ ("ICR", 4)
    ∷ ("DMACR", 4)
    ∷ ("RES2", 52)
    ∷ ("ITCR", 4)
    ∷ ("ITIP", 4)
    ∷ ("ITOP", 4)
    ∷ ("TDR", 4)
    ∷ []

-- The offsets that the static assertions demand.
abbrev pub uart_offsets : Layout
uart_offsets =
    ("DR", 0)
    ∷ ("RSRECR", 4)
    ∷ ("FR", 24)
    ∷ ("ILPR", 32)
    ∷ ("IBRD", 36)
    ∷ ("FBRD", 40)
    ∷ ("LCRH", 44)
    ∷ ("IFLS", 52)
    ∷ ("IMSC", 56)
    ∷ ("RIS", 60)
    ∷ ("MIS", 64)
    ∷ ("ICR", 68)
    ∷ ("DMACR", 72)
    ∷ ("ITCR", 128)
    ∷ ("ITIP", 132)
    ∷ ("ITOP", 136)
    ∷ ("TDR", 140)
    ∷ []
