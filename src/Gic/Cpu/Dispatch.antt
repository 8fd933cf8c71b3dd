-- ===== src/Gic/Cpu/Dispatch.antt =====
-- dev/gicv2.c: an interrupt that is registered for a device, from its acknowledgement to its end.
use pi_vos.Prelude.{ℕ, ◌^◌, ◌<◌, ◌≡◌, ◌≢◌, refl, arith, ◌∙◌, true, false, some, ◌==◌}
use pi_vos.Register.{get_field, set_field, has, offset, width_of}
use pi_vos.Register.Fields.{get_field-set_field}
use pi_vos.Dev.{Platform, Table, Device, device, generic_isr}
use pi_vos.Gic.Lanes.{registered, registers}
use pi_vos.Gic.{
  Gic, Params, irq_count, kdev_register_irq, set_at, set_int_priority, set_int_target,
  set_int_trigger,
}
use pi_vos.Status.{ok}
use pi_vos.Gic.Reg.{gicc_iar, gicc_eoir, gicc_pmr, gicc_ctlr, gicd_ctlr}
use pi_vos.Gic.Cpu.{CpuInterface, Control, get_irq_id, end_isr, gicv2_dispatch, gicv2_init}

eoir_fields :
    (has "EOIINTID" gicc_eoir ≡ true)
    × (has "CPUID" gicc_eoir ≡ true)
    × (width_of "EOIINTID" gicc_eoir ≡ 10)
unfolding has width_of
eoir_fields = (refl, refl, refl)

iar_id : (iar : ℕ) → get_field gicc_iar "InterruptID" iar < 2 ^ 10
unfolding get_field offset width_of
iar_id iar = omega arith

module _ {p : Platform} (cpu : CpuInterface p.World) (kdevs : Table p) where
  get_irq_id_lem :
      (w w1 : p.World) (iar irq_id : ℕ)
      → cpu.read_iar w ≡ (iar, w1)
      → get_field gicc_iar "InterruptID" iar ≡ irq_id
      → get_irq_id cpu w ≡ (irq_id, w1)
  unfolding get_irq_id
  get_irq_id_lem w w1 iar irq_id r i = rw (get_irq_id, r, i) refl

  end_isr_lem :
      (w w1 : p.World) (eoir irq_id : ℕ)
      → cpu.read_eoir w ≡ (eoir, w1)
      → end_isr cpu irq_id w ≡ cpu.write_eoir (set_field gicc_eoir "EOIINTID" irq_id eoir) w1
  unfolding end_isr
  end_isr_lem w w1 eoir irq_id e = rw (end_isr, e) refl

  -- The dispatch of an interrupt that was registered for a device with a service routine, whatever
  -- other interrupt below 1024 was registered afterwards: both are registered, and the dispatch acknowledges, runs the routine of that device, and
  -- ends the interrupt that it acknowledged, with the field of the processor as it is read.
  pub gicv2_dispatch-registered :
      (g : Gic) (irq_id irq_dev_id other other_dev_id : ℕ) (params others : Params)
      (w w1 w3 : p.World) (iar eoir : ℕ) (dev : Device p) (isr : p.World → p.World)
      → other ≢ irq_id
      → other < irq_count
      → cpu.read_iar w ≡ (iar, w1)
      → get_field gicc_iar "InterruptID" iar ≡ irq_id
      → device kdevs irq_dev_id ≡ some dev
      → dev.isr ≡ some isr
      → cpu.read_eoir (isr w1) ≡ (eoir, w3)
      → (g1 g2 : Gic) × (kdev_register_irq irq_id irq_dev_id params g ≡ some (ok, g1))
        × (kdev_register_irq other other_dev_id others g1 ≡ some (ok, g2))
        × (ended : ℕ) × (gicv2_dispatch cpu g2 kdevs w ≡ some (cpu.write_eoir ended w3))
        × (get_field gicc_eoir "EOIINTID" ended ≡ irq_id)
        × (get_field gicc_eoir "CPUID" ended ≡ get_field gicc_eoir "CPUID" eoir)
  unfolding gicv2_dispatch generic_isr set_int_priority set_int_target set_int_trigger set_at
  gicv2_dispatch-registered g irq_id irq_dev_id other other_dev_id params others w w1 w3 iar eoir
        dev isr ne low r i d h e =
      let fields =
        get_field-set_field gicc_eoir "EOIINTID" "CPUID" irq_id eoir refl eoir_fields.0
          eoir_fields.1 in
      let ack = get_irq_id_lem w w1 iar irq_id r i in
      let done = end_isr_lem (isr w1) w3 eoir irq_id e in
      let here : (irq_id == irq_id) ≡ true = ground arith in
      let away : (irq_id == other) ≡ false = ground arith in
      let known : irq_id < irq_count = omega (arith, iar_id iar, i) in
      (
        registered irq_id irq_dev_id params g,
        registered other other_dev_id others (registered irq_id irq_dev_id params g),
        registers irq_id irq_dev_id params g known,
        registers other other_dev_id others (registered irq_id irq_dev_id params g) low,
        set_field gicc_eoir "EOIINTID" irq_id eoir,
        rw (gicv2_dispatch, ack, away, here, generic_isr, d, h, ack, done) refl,
        fields.0 ∙ rw (eoir_fields.2) (omega (arith, iar_id iar, i)),
        fields.1,
      )

control_fields :
    (has "ENABLE" gicd_ctlr ≡ true)
    × (has "RES0" gicd_ctlr ≡ true)
    × (has "EnableGrp1" gicc_ctlr ≡ true)
    × (has "EOImodeNS" gicc_ctlr ≡ true)
    × (has "Priority" gicc_pmr ≡ true)
    × (has "RES0" gicc_pmr ≡ true)
    × (width_of "ENABLE" gicd_ctlr ≡ 1)
    × (width_of "EnableGrp1" gicc_ctlr ≡ 1)
    × (width_of "Priority" gicc_pmr ≡ 8)
unfolding has width_of
control_fields = (refl, refl, refl, refl, refl, refl, refl, refl, refl)

-- The initialisation enables the distributor and the interrupts of group 1, lets interrupts of every
-- priority through, and leaves the other fields of the three registers, of which these are some, as
-- they were.
pub gicv2_init_lem :
    (c : Control)
    → let (status, out) = gicv2_init c in
      (status ≡ 0)
      × (get_field gicd_ctlr "ENABLE" out.distributor_ctlr ≡ 1)
      × (get_field gicd_ctlr "RES0" out.distributor_ctlr
          ≡ get_field gicd_ctlr "RES0" c.distributor_ctlr)
      × (get_field gicc_ctlr "EnableGrp1" out.cpu_ctlr ≡ 1)
      × (get_field gicc_ctlr "EOImodeNS" out.cpu_ctlr ≡ get_field gicc_ctlr "EOImodeNS" c.cpu_ctlr)
      × (get_field gicc_pmr "Priority" out.cpu_pmr ≡ 0xFF)
unfolding gicv2_init
gicv2_init_lem c =
    let f = control_fields in
    let d = get_field-set_field gicd_ctlr "ENABLE" "RES0" 1 c.distributor_ctlr refl f.0 f.1 in
    let i = get_field-set_field gicc_ctlr "EnableGrp1" "EOImodeNS" 1 c.cpu_ctlr refl f.2 f.3 in
    let m = get_field-set_field gicc_pmr "Priority" "RES0" 0xFF c.cpu_pmr refl f.4 f.5 in
    (refl, d.0 ∙ rw (f.6) refl, d.1, i.0 ∙ rw (f.7) refl, i.1, m.0 ∙ rw (f.8) refl)
