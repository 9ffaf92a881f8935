-- ===== src/Arch/Serial.antt =====
-- src/arch/x86_64/serial/serial.c and src/arch/x86_64/ps2/ps2.c: drivers that wait for a status bit. What
-- the next calls of inb return is a list, and a driver that still waits at its end is out of fuel.
pub mod Laws
mod Tests
use goshkik_os.Prelude.Run.{Run, done, fault, out_of_fuel, Prog, pure, ◌>>=◌, ◌>>◌, get, modify}
use goshkik_os.Arch.Pit.{PortWrite}
use goshkik_os.Prelude.{
  ℕ, zero, suc, ◌+◌, ◌-◌, ◌*◌, ◌/◌, ◌%◌, ◌^◌, ◌≤◌, ◌<◌, bit_and, bit_or, bit_xor, ◌≡◌, refl, sym,
  ap, ap₂, ◌∙◌, fun_ext, subst, subst₂, ◌≢◌, ◌↔◌, ◌⊎◌, inl, inr, Bool, true, false, not, ◌&&◌, ◌||◌,
  Option, none, some, List, [], ◌∷◌, ◌++◌, map, arith, ltb, leb, ◌==◌, if◌then◌else◌, ltb→lt,
  lt→ltb, le→ltb, ltb-false, leb→le, leb-false, leb-gt, leb-true, ==_iff, ==_refl, ne→==, ==_false,
  Bool-cases, Option-cases, length, get_elem?, get_or, set, replicate, rev_onto, length-append,
  length-set, length-replicate, get_or-replicate, get_or-set, get_elem?-get_or,
}

-- the bytes that the ports give, and the bytes that went to ports, latest first
pub record Ports : Type 0 where
  pub inputs : List ℕ
  pub outputs : List PortWrite

abbrev pub M : Type 0 → Type 0
M = Prog Ports

abbrev pub give_first : List ℕ → M ℕ
give_first [] = λ _. out_of_fuel
give_first (b ∷ inputs) = λ s. done b (record s { inputs = inputs })

-- the port is not named, since every wait here is on one port
pub inb : M ℕ
inb s = give_first s.inputs s

pub outb : ℕ → ℕ → M (Unit {0})
outb port value = modify (λ s. record s { outputs = (port, value % 256) ∷ s.outputs })

-- what is left behind the first byte that is ready
pub skip_busy : (ℕ → Bool) → List ℕ → Option (List ℕ)
skip_busy ready [] = none
skip_busy ready (b ∷ inputs) =
    let rest = skip_busy ready inputs in if ready b then some inputs else rest

abbrev pub or_wait : Option (List ℕ) → M (Unit {0})
or_wait none = λ _. out_of_fuel
or_wait (some inputs) = modify (λ s. record s { inputs = inputs })

-- `while (…) ;` over the status of a port
pub wait_until : (ℕ → Bool) → M (Unit {0})
wait_until ready s = or_wait (skip_busy ready s.inputs) s

-- `SERIAL_PORT`
abbrev pub serial_port : ℕ
serial_port = 0x3F8

-- `inb(SERIAL_PORT + 5) & 0x20`
abbrev pub line_ready : ℕ → Bool
line_ready status = not (status / 32 % 2 == 0)

-- the result is 1 where the loop back does not give the byte that was sent
unfoldable pub init_serial : M ℕ
init_serial = do
  outb (serial_port + 1) 0x00
  outb (serial_port + 3) 0x80
  outb (serial_port + 0) 0x03
  outb (serial_port + 1) 0x00
  outb (serial_port + 3) 0x03
  outb (serial_port + 2) 0xC7
  outb (serial_port + 4) 0x0B
  outb (serial_port + 4) 0x1E
  outb (serial_port + 0) 0xAE
  echo ← inb
  if not (echo == 0xAE) then pure 1 else (do outb (serial_port + 4) 0x0F; pure 0)

pub write_serial_char : ℕ → M (Unit {0})
write_serial_char c = do wait_until line_ready; outb serial_port c

-- a string without its NUL
pub write_serial : List ℕ → M (Unit {0})
write_serial [] = pure tt
write_serial (c ∷ string) = do write_serial_char c; write_serial string

-- `PS2_DATA`, `PS2_COMMAND` and the commands of ps2.h
abbrev pub ps2_data : ℕ
ps2_data = 0x60

abbrev pub ps2_command : ℕ
ps2_command = 0x64

abbrev pub ps2_enable_p1 : ℕ
ps2_enable_p1 = 0xAE

abbrev pub ps2_disable_p1 : ℕ
ps2_disable_p1 = 0xAD

abbrev pub ps2_disable_p2 : ℕ
ps2_disable_p2 = 0xA7

pub ps2_read : M ℕ
ps2_read = do wait_until (λ status. not (status % 2 == 0)); inb

pub ps2_write : ℕ → ℕ → M (Unit {0})
ps2_write port value = do wait_until (λ status. status / 2 % 2 == 0); outb port value

pub get_ps2_config : M ℕ
get_ps2_config = do ps2_write ps2_command 0x20; ps2_read

pub write_ps2_config : ℕ → M (Unit {0})
write_ps2_config value = do ps2_write ps2_command 0x60; ps2_write ps2_data value

-- the bits that init_ps2 sets: 0 and 6, and 1 where bit 5 is set
abbrev pub new_config : ℕ → ℕ
new_config config =
    let config = bit_or config 0x41 in
    if bit_and config 0x20 == 0 then config else bit_or config 0x02

pub init_ps2 : M ℕ
init_ps2 = do
  ps2_write ps2_command ps2_disable_p1
  ps2_write ps2_command ps2_disable_p2
  config ← get_ps2_config
  write_ps2_config (new_config config)
  ps2_write ps2_command ps2_enable_p1
  pure 0

-- the byte is read and dropped
unfoldable pub keyboard_handler : M (Unit {0})
keyboard_handler = do scancode ← ps2_read; pure tt
