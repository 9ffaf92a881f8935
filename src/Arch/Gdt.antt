-- ===== src/Arch/Gdt.antt =====
-- src/arch/x86_64/cpu/gdt/gdt.c and the selectors of src/include/arch/x86_64/arch.h: the
-- descriptor table that gdt_setup fills. The address of the task state segment is a parameter.
mod Laws
mod Tests
use goshkik_os.Prelude.{
  ℕ, zero, suc, ◌+◌, ◌-◌, ◌*◌, ◌/◌, ◌%◌, ◌^◌, ◌≤◌, ◌<◌, bit_and, bit_or, ◌≡◌, refl, sym, ap, ◌∙◌,
  fun_ext, ◌≢◌, ◌↔◌, ◌⊎◌, inl, inr, Bool, true, false, not, ◌&&◌, ◌||◌, Option, none, some, List,
  [], ◌∷◌, ◌++◌, map, arith, ltb, leb, ◌==◌, if◌then◌else◌, ltb→lt, lt→ltb, le→ltb, ltb-false,
  leb→le, ==_iff, ==_refl, ne→==, ==_false, Bool-cases, Option-cases, length, get_elem?, get_or,
  set, replicate, length-append, length-set, length-replicate, get_or-replicate, get_or-set,
}

-- `struct gdt_desc`
pub record GdtDesc : Type 0 where
  pub limit : ℕ
  pub base_low : ℕ
  pub base_mid : ℕ
  pub access : ℕ
  pub granularity : ℕ
  pub base_high : ℕ

-- `struct tss_desc`
pub record TssDesc : Type 0 where
  pub length : ℕ
  pub base_low : ℕ
  pub base_mid : ℕ
  pub flags : ℕ
  pub flags2 : ℕ
  pub base_high : ℕ
  pub base_upper32 : ℕ
  pub reserved : ℕ

-- `struct gdtr`
pub record Gdtr : Type 0 where
  pub entries : List GdtDesc
  pub tss : TssDesc

abbrev pub kernel_code64 : ℕ
kernel_code64 = 0x08

abbrev pub kernel_data64 : ℕ
kernel_data64 = 0x10

abbrev pub user_code64 : ℕ
user_code64 = 0x1B

abbrev pub user_data64 : ℕ
user_data64 = 0x23

-- `sizeof(tss_t)`, a packed struct of 26 words of 32 bits
abbrev pub sizeof_tss : ℕ
sizeof_tss = 104

abbrev pub blank_desc : GdtDesc
blank_desc = record {
  limit = 0;
  base_low = 0;
  base_mid = 0;
  access = 0;
  granularity = 0;
  base_high = 0;
}

abbrev segment : ℕ → ℕ → GdtDesc → GdtDesc
segment access granularity d = record d { access = access; granularity = granularity }

pub gdt_setup : ℕ → Gdtr
gdt_setup tss_base = record {
  entries =
      blank_desc
      ∷ segment 0b10011010 0b00100000 blank_desc
      ∷ segment 0b10010010 0 blank_desc
      ∷ segment 0b11110010 0 blank_desc
      ∷ segment 0b11111010 0b00100000 blank_desc
      ∷ [];
  tss = record {
    length = sizeof_tss - 1;
    base_low = tss_base % 2 ^ 16;
    base_mid = (tss_base / 2 ^ 16) % 2 ^ 8;
    flags = 0b10001001;
    flags2 = 0;
    base_high = (tss_base / 2 ^ 24) % 2 ^ 8;
    base_upper32 = (tss_base / 2 ^ 32) % 2 ^ 32;
    reserved = 0;
  };
}
