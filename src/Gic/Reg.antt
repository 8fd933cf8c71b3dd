-- ===== src/Gic/Reg.antt =====
-- include/kernel/dev/gicv2/reg.h: the registers of the interrupt controller that have fields, each a
-- list of its fields from bit 0 on, and the structures of the CPU interface and the distributor, the
-- lists of their registers and gaps with their sizes in bytes.
--
-- A name in `bit32` stands for the bit of its place in the list, and not of its number: `B2` is missing
-- there.
use Prim.Native.String.{String}
use pi_vos.Prelude.{ℕ, ◌+◌, List, [], ◌∷◌}
use pi_vos.Register.{Layout}
use pi_vos.Word.{kernel_space_mask}

-- `GICV2_ADDRESS`
abbrev pub gicv2_address : ℕ
gicv2_address = 0xFF840000 + kernel_space_mask

abbrev pub bit32 : Layout
bit32 =
    ("B0", 1)
    ∷ ("B1", 1)
    ∷ ("B3", 1)
    ∷ ("B4", 1)
    ∷ ("B5", 1)
    ∷ ("B6", 1)
    ∷ ("B7", 1)
    ∷ ("B8", 1)
    ∷ ("B9", 1)
    ∷ ("B10", 1)
    ∷ ("B11", 1)
    ∷ ("B12", 1)
    ∷ ("B13", 1)
    ∷ ("B14", 1)
    ∷ ("B15", 1)
    ∷ ("B16", 1)
    ∷ ("B17", 1)
    ∷ ("B18", 1)
    ∷ ("B19", 1)
    ∷ ("B20", 1)
    ∷ ("B21", 1)
    ∷ ("B22", 1)
    ∷ ("B23", 1)
    ∷ ("B24", 1)
    ∷ ("B25", 1)
    ∷ ("B26", 1)
    ∷ ("B27", 1)
    ∷ ("B28", 1)
    ∷ ("B29", 1)
    ∷ ("B30", 1)
    ∷ ("B31", 1)
    ∷ []

abbrev pub dibit32 : Layout
dibit32 =
    ("B0", 2)
    ∷ ("B1", 2)
    ∷ ("B2", 2)
    ∷ ("B3", 2)
    ∷ ("B4", 2)
    ∷ ("B5", 2)
    ∷ ("B6", 2)
    ∷ ("B7", 2)
    ∷ ("B8", 2)
    ∷ ("B9", 2)
    ∷ ("B10", 2)
    ∷ ("B11", 2)
    ∷ ("B12", 2)
    ∷ ("B13", 2)
    ∷ ("B14", 2)
    ∷ ("B15", 2)
    ∷ []

abbrev pub byte32 : Layout
byte32 = ("B0", 8) ∷ ("B1", 8) ∷ ("B2", 8) ∷ ("B3", 8) ∷ []

abbrev pub gicc_eoir : Layout
gicc_eoir = ("EOIINTID", 10) ∷ ("CPUID", 3) ∷ ("RES0", 19) ∷ []

abbrev pub gicc_iar : Layout
gicc_iar = ("InterruptID", 10) ∷ ("CPUID", 3) ∷ ("RES0", 19) ∷ []

abbrev pub gicc_pmr : Layout
gicc_pmr = ("Priority", 8) ∷ ("RES0", 24) ∷ []

abbrev pub gicc_ctlr : Layout
gicc_ctlr =
    ("EnableGrp1", 1)
    ∷ ("RES0", 4)
    ∷ ("FIQBypDisGrp1", 1)
    ∷ ("IRQBypDisGrp1", 1)
    ∷ ("RES1", 2)
    ∷ ("EOImodeNS", 1)
    ∷ ("RES2", 22)
    ∷ []

-- `struct gicc`
abbrev pub gicc_struct : Layout
gicc_struct =
    ("CTLR", 4)
    ∷ ("PMR", 4)
    ∷ ("BPR", 4)
    ∷ ("IAR", 4)
    ∷ ("EOIR", 4)
    ∷ ("RPR", 4)
    ∷ ("HPPIR", 4)
    ∷ ("ABPR", 4)
    ∷ ("AIAR", 4)
    ∷ ("AEOIR", 4)
    ∷ ("AHPPIR", 4)
    ∷ ("RES0", 164)
    ∷ ("APR0", 4)
    ∷ ("RES1", 12)
    ∷ ("NSAPR0", 4)
    ∷ ("RES2", 24)
    ∷ ("IIDR", 4)
    ∷ ("RES3", 3840)
    ∷ ("DIR", 4)
    ∷ []

-- The offsets that the static assertions demand.
abbrev pub gicc_offsets : Layout
gicc_offsets =
    ("CTLR", 0)
    ∷ ("PMR", 4)
    ∷ ("BPR", 8)
    ∷ ("IAR", 12)
    ∷ ("EOIR", 16)
    ∷ ("RPR", 20)
    ∷ ("HPPIR", 24)
    ∷ ("ABPR", 28)
    ∷ ("AIAR", 32)
    ∷ ("AEOIR", 36)
    ∷ ("AHPPIR", 40)
    ∷ ("APR0", 208)
    ∷ ("NSAPR0", 224)
    ∷ ("IIDR", 252)
    ∷ ("DIR", 4096)
    ∷ []

abbrev pub gicd_icfgr : Layout
gicd_icfgr = dibit32

abbrev pub gicd_itargetsr : Layout
gicd_itargetsr = byte32

abbrev pub gicd_ipriorityr : Layout
gicd_ipriorityr = byte32

abbrev pub gicd_icactiver : Layout
gicd_icactiver = bit32

abbrev pub gicd_isactiver : Layout
gicd_isactiver = bit32

abbrev pub gicd_icpendr : Layout
gicd_icpendr = bit32

abbrev pub gicd_ispendr : Layout
gicd_ispendr = bit32

abbrev pub gicd_icenabler : Layout
gicd_icenabler = bit32

abbrev pub gicd_isenabler : Layout
gicd_isenabler = bit32

abbrev pub gicd_igroupr : Layout
gicd_igroupr = bit32

abbrev pub gicd_typer : Layout
gicd_typer =
    ("ITLinesNumber", 5)
    ∷ ("CPUNumber", 3)
    ∷ ("RES0", 2)
    ∷ ("SecurityExtn", 1)
    ∷ ("LSPI", 5)
    ∷ ("RES1", 16)
    ∷ []

abbrev pub gicd_ctlr : Layout
gicd_ctlr = ("ENABLE", 1) ∷ ("RES0", 31) ∷ []

-- `struct gicd`
abbrev pub gicd_struct : Layout
gicd_struct =
    ("CTLR", 4)
    ∷ ("TYPER", 4)
    ∷ ("IIDR", 4)
    ∷ ("RES0", 116)
    ∷ ("IGROUPR", 128)
    ∷ ("ISENABLER", 128)
    ∷ ("ICENABLER", 128)
    ∷ ("ISPENDR", 128)
    ∷ ("ICPENDR", 128)
    ∷ ("ISACTIVER", 128)
    ∷ ("ICACTIVER", 128)
    ∷ ("IPRIORITYR", 1024)
    ∷ ("ITARGETSR", 1024)
    ∷ ("ICFGR", 256)
    ∷ ("PPISR", 4)
    ∷ ("SPISR", 4)
    ∷ ("RES1", 504)
    ∷ ("SGIR", 4)
    ∷ ("RES2", 12)
    ∷ ("CPENDSGIR", 4)
    ∷ ("RES3", 12)
    ∷ ("SPENDSGIR", 4)
    ∷ ("RES4", 172)
    ∷ ("PIDR4", 4)
    ∷ ("PIDR5", 4)
    ∷ ("PIDR6", 4)
    ∷ ("PIDR7", 4)
    ∷ ("PIDR0", 4)
    ∷ ("PIDR1", 4)
    ∷ ("PIDR2", 4)
    ∷ ("PIDR3", 4)
    ∷ ("CIDR0", 4)
    ∷ ("CIDR1", 4)
    ∷ ("CIDR2", 4)
    ∷ ("CIDR3", 4)
    ∷ []

-- The offsets that the static assertions demand.
abbrev pub gicd_offsets : Layout
gicd_offsets =
    ("CTLR", 0)
    ∷ ("TYPER", 4)
    ∷ ("IIDR", 8)
    ∷ ("IGROUPR", 128)
    ∷ ("ISENABLER", 256)
    ∷ ("ICENABLER", 384)
    ∷ ("ISPENDR", 512)
    ∷ ("ICPENDR", 640)
    ∷ ("ISACTIVER", 768)
    ∷ ("ICACTIVER", 896)
    ∷ ("IPRIORITYR", 1024)
    ∷ ("ITARGETSR", 2048)
    ∷ ("ICFGR", 3072)
    ∷ ("PPISR", 3328)
    ∷ ("SPISR", 3332)
    ∷ ("SGIR", 3840)
    ∷ ("CPENDSGIR", 3856)
    ∷ ("SPENDSGIR", 3872)
    ∷ ("PIDR4", 4048)
    ∷ ("PIDR5", 4052)
    ∷ ("PIDR6", 4056)
    ∷ ("PIDR7", 4060)
    ∷ ("PIDR0", 4064)
    ∷ ("PIDR1", 4068)
    ∷ ("PIDR2", 4072)
    ∷ ("PIDR3", 4076)
    ∷ ("CIDR0", 4080)
    ∷ ("CIDR1", 4084)
    ∷ ("CIDR2", 4088)
    ∷ ("CIDR3", 4092)
    ∷ []

-- Registers whose fields the header leaves out.
abbrev pub gicc_no_fields : List String
gicc_no_fields =
    "gicc_dir" ∷ "gicc_iidr" ∷ "gicc_nsapr0" ∷ "gicc_apr0" ∷ "gicc_ahppir" ∷ "gicc_aeoir"
    ∷ "gicc_aiar" ∷ "gicc_abpr" ∷ "gicc_hppir" ∷ "gicc_rpr" ∷ []

-- Registers whose fields the header leaves out.
abbrev pub gicd_no_fields : List String
gicd_no_fields =
    "gicd_cidr3" ∷ "gicd_cidr2" ∷ "gicd_cidr1" ∷ "gicd_cidr0" ∷ "gicd_pidr3" ∷ "gicd_pidr2"
    ∷ "gicd_pidr1" ∷ "gicd_pidr0" ∷ "gicd_pidr7" ∷ "gicd_pidr6" ∷ "gicd_pidr5" ∷ "gicd_pidr4"
    ∷ "gicd_spendsgir" ∷ "gicd_cpendsgir" ∷ "gicd_sgir" ∷ "gicd_spisr" ∷ "gicd_ppisr" ∷ []

-- `struct gicv2`: the distributor and the CPU interface at their alignments
abbrev pub gicv2_struct : Layout
gicv2_struct = ("RES0", 0x1000) ∷ ("GICD", 0x1000) ∷ ("GICC", 0x2000) ∷ []
