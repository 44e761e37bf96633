-- ===== src/Descriptor.antt =====
-- The segment and gate descriptors of inc/mmu.h, the table `gdt` and env_init_percpu of kern/env.c, and
-- trap_init_percpu of kern/trap.c. Addresses are below 2 ^ 32.
pub mod Decoded
pub mod Stacks
use jos.Base.{
  ℕ, ◌+◌, ◌-◌, ◌*◌, ◌/◌, ◌%◌, ◌^◌, Bool, true, false, ◌==◌, if◌then◌else◌, bit_or, update, sub32,
}
use jos.Mmu.{kstacktop, kstksize, kstkgap}

pub record Segdesc : Type 0 where
  pub sd_lim_15_0 : ℕ
  pub sd_base_15_0 : ℕ
  pub sd_base_23_16 : ℕ
  pub sd_type : ℕ
  pub sd_s : ℕ
  pub sd_dpl : ℕ
  pub sd_p : ℕ
  pub sd_lim_19_16 : ℕ
  pub sd_avl : ℕ
  pub sd_rsv1 : ℕ
  pub sd_db : ℕ
  pub sd_g : ℕ
  pub sd_base_31_24 : ℕ

-- The initialiser, with each value cut to its field.
abbrev pub fields : ℕ → ℕ → ℕ → ℕ → ℕ → ℕ → ℕ → Segdesc
fields lim type base dpl lim_high db g = record {
  sd_lim_15_0 = lim % 2 ^ 16;
  sd_base_15_0 = base % 2 ^ 16;
  sd_base_23_16 = base / 2 ^ 16 % 2 ^ 8;
  sd_type = type;
  sd_s = 1;
  sd_dpl = dpl;
  sd_p = 1;
  sd_lim_19_16 = lim_high % 2 ^ 4;
  sd_avl = 0;
  sd_rsv1 = 0;
  sd_db = db;
  sd_g = g;
  sd_base_31_24 = base / 2 ^ 24 % 2 ^ 8;
}

-- The limit of SEG counts pages.
unfoldable pub seg : ℕ → ℕ → ℕ → ℕ → Segdesc
seg type base lim dpl = fields (lim / 2 ^ 12) type base dpl (lim / 2 ^ 28) 1 1

unfoldable pub seg16 : ℕ → ℕ → ℕ → ℕ → Segdesc
seg16 type base lim dpl = fields lim type base dpl (lim / 2 ^ 16) 1 0

unfoldable pub seg_null : Segdesc
seg_null = record {
  sd_lim_15_0 = 0;
  sd_base_15_0 = 0;
  sd_base_23_16 = 0;
  sd_type = 0;
  sd_s = 0;
  sd_dpl = 0;
  sd_p = 0;
  sd_lim_19_16 = 0;
  sd_avl = 0;
  sd_rsv1 = 0;
  sd_db = 0;
  sd_g = 0;
  sd_base_31_24 = 0;
}

-- Bits of the types, and the types of system segments.
abbrev pub sta_x : ℕ
sta_x = 8

abbrev pub sta_w : ℕ
sta_w = 2

abbrev pub sta_r : ℕ
sta_r = 2

abbrev pub sts_t32a : ℕ
sts_t32a = 0x9

abbrev pub sts_cg32 : ℕ
sts_cg32 = 0xC

abbrev pub sts_ig32 : ℕ
sts_ig32 = 0xE

abbrev pub sts_tg32 : ℕ
sts_tg32 = 0xF

pub record Gatedesc : Type 0 where
  pub gd_off_15_0 : ℕ
  pub gd_sel : ℕ
  pub gd_args : ℕ
  pub gd_rsv1 : ℕ
  pub gd_type : ℕ
  pub gd_s : ℕ
  pub gd_dpl : ℕ
  pub gd_p : ℕ
  pub gd_off_31_16 : ℕ

unfoldable pub setgate : Bool → ℕ → ℕ → ℕ → Gatedesc
setgate istrap sel off dpl = record {
  gd_off_15_0 = off % 2 ^ 16;
  gd_sel = sel;
  gd_args = 0;
  gd_rsv1 = 0;
  gd_type = if istrap then sts_tg32 else sts_ig32;
  gd_s = 0;
  gd_dpl = dpl;
  gd_p = 1;
  gd_off_31_16 = off / 2 ^ 16;
}

unfoldable pub setcallgate : ℕ → ℕ → ℕ → Gatedesc
unfolding setgate
setcallgate sel off dpl = record (setgate false sel off dpl) { gd_type = sts_cg32 }

-- The selectors of inc/memlayout.h.
abbrev pub gd_kt : ℕ
gd_kt = 0x08

abbrev pub gd_kd : ℕ
gd_kd = 0x10

abbrev pub gd_ut : ℕ
gd_ut = 0x18

abbrev pub gd_ud : ℕ
gd_ud = 0x20

abbrev pub gd_tss0 : ℕ
gd_tss0 = 0x28

-- `gdt` as it is linked.
unfoldable pub gdt : ℕ → Segdesc
unfolding seg seg_null
gdt i =
    if i == gd_kt / 8
    then seg (sta_x + sta_r) 0 0xffff_ffff 0
    else if i == gd_kd / 8
    then seg sta_w 0 0xffff_ffff 0
    else if i == gd_ut / 8
    then seg (sta_x + sta_r) 0 0xffff_ffff 3
    else if i == gd_ud / 8
    then seg sta_w 0 0xffff_ffff 3
    else seg_null

-- The segment registers of a CPU, and what `ltr` and `lidt` load.
pub record Segments : Type 0 where
  pub gs : ℕ
  pub fs : ℕ
  pub es : ℕ
  pub ds : ℕ
  pub ss : ℕ
  pub cs : ℕ
  pub ldt : ℕ
  pub tr : ℕ
  pub has_idt : Bool

unfoldable pub env_init_percpu : Segments → Segments
env_init_percpu s = record s {
  gs = bit_or gd_ud 3;
  fs = bit_or gd_ud 3;
  es = gd_kd;
  ds = gd_kd;
  ss = gd_kd;
  cs = gd_kt;
  ldt = 0;
}

-- `gdt`, `ts_esp0` and `ts_ss0` of each CPU's `cpu_ts`, and the registers of this CPU.
pub record Tables : Type 0 where
  pub table : ℕ → Segdesc
  pub ts_esp0 : ℕ → ℕ
  pub ts_ss0 : ℕ → ℕ
  pub segments : Segments

-- `KSTACKTOP - cpuid * (KSTKSIZE + KSTKGAP)`
abbrev pub esp0_of : ℕ → ℕ
esp0_of cpuid = sub32 kstacktop (cpuid * (kstksize + kstkgap))

-- sizeof(struct Taskstate)
abbrev pub taskstate_size : ℕ
taskstate_size = 104

-- `ts_at` is the address of `thiscpu->cpu_ts`.
unfoldable pub trap_init_percpu : ℕ → ℕ → Tables → Tables
unfolding seg16
trap_init_percpu cpuid ts_at s = record s {
  ts_esp0 = update s.ts_esp0 cpuid (esp0_of cpuid);
  ts_ss0 = update s.ts_ss0 cpuid gd_kd;
  table =
      update s.table (gd_tss0 / 8 + cpuid)
        (record (seg16 sts_t32a ts_at (taskstate_size - 1) 0) { sd_s = 0 });
  segments = record (s.segments) { tr = gd_tss0 + 8 * cpuid; has_idt = true };
}
