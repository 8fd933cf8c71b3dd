-- ===== src/Gic/Cpu.antt =====
-- dev/gicv2.c: the CPU interface: an interrupt from its acknowledgement to its end, and
-- `dev_gicv2_init`.
--
-- The registers `IAR` and `EOIR` are accesses of the device, steps of the state that the drivers
-- share. `none` is a null pointer in the table of devices.
pub mod Dispatch
mod Tests
use pi_vos.Prelude.{ℕ, Option, none, some}
use pi_vos.Register.{get_field, set_field}
use pi_vos.Dev.{Platform, Table, generic_isr}
use pi_vos.Gic.{Gic}
use pi_vos.Gic.Reg.{gicc_iar, gicc_eoir, gicc_pmr, gicc_ctlr, gicd_ctlr}

-- `gicv2->GICC.IAR` and `gicv2->GICC.EOIR`
pub record CpuInterface (World : Type 0) : Type 0 where
  pub read_iar : World → ℕ × World
  pub read_eoir : World → ℕ × World
  pub write_eoir : ℕ → World → World

module _ {World : Type 0} (cpu : CpuInterface World) where
  unfoldable pub get_irq_id : World → ℕ × World
  get_irq_id w = let (iar, w1) = cpu.read_iar w in (get_field gicc_iar "InterruptID" iar, w1)

  unfoldable pub end_isr : ℕ → World → World
  end_isr irq_id w =
      let (eoir, w1) = cpu.read_eoir w in
      cpu.write_eoir (set_field gicc_eoir "EOIINTID" irq_id eoir) w1

-- `gicv2_dispatch`
module _ {p : Platform} (cpu : CpuInterface p.World) (g : Gic) (kdevs : Table p) where
  unfoldable pub gicv2_dispatch : p.World → Option p.World
  gicv2_dispatch w =
      let (irq_id, w1) = get_irq_id cpu w in
      elim (generic_isr kdevs (g.irq_devices irq_id) w1) [
        | none ↦ none
        | some (_, w2) ↦ some (end_isr cpu irq_id w2)
      ]

-- The control registers of the distributor and of the CPU interface
pub record Control : Type 0 where
  pub distributor_ctlr : ℕ
  pub cpu_ctlr : ℕ
  pub cpu_pmr : ℕ

unfoldable pub gicv2_init : Control → ℕ × Control
gicv2_init c = (
  0,
  record {
    distributor_ctlr = set_field gicd_ctlr "ENABLE" 1 c.distributor_ctlr;
    cpu_ctlr = set_field gicc_ctlr "EnableGrp1" 1 c.cpu_ctlr;
    cpu_pmr = set_field gicc_pmr "Priority" 0xFF c.cpu_pmr;
  },
)
