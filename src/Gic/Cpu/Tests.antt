-- ===== src/Gic/Cpu/Tests.antt =====
-- Interrupt 30 of a device under number 1; the state lists what is written to `EOIR`.
use pi_vos.Prelude.{ℕ, ◌≡◌, arith, refl, some, none, List, [], ◌∷◌}
use pi_vos.Register.{get_field, offset, width_of}
use pi_vos.Dev.{Platform, Table, Device, device, generic}
use pi_vos.Status.{ok}
use pi_vos.Gic.{Gic, Params, kdev_register_irq}
use pi_vos.Gic.Reg.{gicc_iar, gicc_eoir}
use pi_vos.Gic.Cpu.{CpuInterface, gicv2_dispatch}
use pi_vos.Gic.Cpu.Dispatch.{gicv2_dispatch-registered}

abbrev listing : Platform
listing = record { World = List ℕ; Params = ℕ; Dispatch = ℕ; Action = ℕ }

abbrev interface : CpuInterface (List ℕ)
interface = record {
  read_iar = λ w. (30, w);
  read_eoir = λ w. (0, w);
  write_eoir = λ value w. value ∷ w;
}

abbrev served : Device listing
served = record { isr = some (λ (w : List ℕ). 77 ∷ w); ops = generic }

abbrev devices : Table listing
devices = none ∷ some served ∷ []

abbrev blank : Gic
blank = record {
  isenabler = λ i. 0;
  ipriorityr = λ i. 0;
  itargetsr = λ i. 0;
  igroupr = λ i. 0;
  icfgr = λ i. 0;
  irq_devices = λ i. 0;
}

abbrev params : Params
params = record { priority = 0; cpu = 1; trigger = 2 }

acknowledged : (get_field gicc_iar "InterruptID" 30 ≡ 30) × (device devices 1 ≡ some served)
unfolding get_field offset width_of device
acknowledged = (refl, refl)

gicv2_dispatch-registered_example :
    (g1 g2 : Gic) × (kdev_register_irq 30 1 params blank ≡ some (ok, g1))
    × (kdev_register_irq 153 2 params g1 ≡ some (ok, g2))
    × (ended : ℕ) × (gicv2_dispatch interface g2 devices []
        ≡ some (interface.write_eoir ended (77 ∷ [])))
    × (get_field gicc_eoir "EOIINTID" ended ≡ 30)
    × (get_field gicc_eoir "CPUID" ended ≡ get_field gicc_eoir "CPUID" 0)
gicv2_dispatch-registered_example =
    gicv2_dispatch-registered interface devices blank 30 1 153 2 params params [] [] (77 ∷ []) 30 0
      served (λ (w : List ℕ). 77 ∷ w) (omega arith) (omega arith) refl acknowledged.0 acknowledged.1
      refl refl
