-- ===== src/Register/Tests.antt =====
-- The offsets that the static assertions demand.
use Prim.Native.String.{String}
use pi_vos.Prelude.{ℕ, ◌≡◌, refl, List, map}
use pi_vos.Register.{Layout, offset, total}
use pi_vos.Uart.Reg.{uart_struct, uart_offsets}
use pi_vos.Gic.Reg.{gicc_struct, gicc_offsets, gicd_struct, gicd_offsets, gicv2_struct, bit32}

abbrev offsets_in : Layout → Layout → List ℕ
offsets_in members names = map (λ (e : String × ℕ). offset e.0 members) names

abbrev demanded : Layout → List ℕ
demanded names = map (λ (e : String × ℕ). e.1) names

static_asserts :
    (offsets_in uart_struct uart_offsets ≡ demanded uart_offsets)
    × (offsets_in gicc_struct gicc_offsets ≡ demanded gicc_offsets)
    × (offsets_in gicd_struct gicd_offsets ≡ demanded gicd_offsets)
    × (offset "GICD" gicv2_struct ≡ 0x1000)
    × (offset "GICC" gicv2_struct ≡ 0x2000)
unfolding offset
static_asserts = (refl, refl, refl, refl, refl)

-- `B31` is bit 30, since `B2` is missing.
bit32_short : (offset "B31" bit32 ≡ 30) × (total bit32 ≡ 31)
unfolding offset total
bit32_short = (refl, refl)
