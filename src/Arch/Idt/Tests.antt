-- ===== src/Arch/Idt/Tests.antt =====
-- Runs of idt.c and syscall.c, and their theorems at concrete inputs.
use goshkik_os.Prelude.{◌≡◌, refl, List, replicate}
use goshkik_os.Arch.Idt.{IdtEntry, empty_entry, entry_of}

abbrev blank : List IdtEntry
blank = replicate 256 empty_entry

entry_run : entry_of 0xFFFF_8000_1234_5678 0x08 0x8E ≡ record {
  offset_low = 0x5678;
  selector = 0x08;
  ist = 0;
  type_attr = 0x8E;
  offset_mid = 0x1234;
  offset_high = 0xFFFF_8000;
  reserved = 0;
}
unfolding entry_of
entry_run = refl
