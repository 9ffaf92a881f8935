-- ===== src/Klibc/Printf.antt =====
-- src/klibc/printf.c. What kputc gets is a list of characters. A function gives none where the code reads
-- or writes out of bounds, divides by zero or takes an argument that is not there. The spinlock is left out.
pub mod Laws
pub mod Format
mod Tests
use goshkik_os.Prelude.Memory.{update}
use goshkik_os.Klibc.Str.{◌>>=◌}
use goshkik_os.Prelude.{
  ℕ, zero, suc, ◌+◌, ◌-◌, ◌*◌, ◌/◌, ◌%◌, ◌^◌, ◌≤◌, ◌<◌, bit_and, bit_or, bit_xor, ◌≡◌, refl, sym,
  ap, ap₂, ◌∙◌, fun_ext, subst, subst₂, ◌≢◌, ◌↔◌, ◌⊎◌, inl, inr, Bool, true, false, not, ◌&&◌, ◌||◌,
  Option, none, some, List, [], ◌∷◌, ◌++◌, map, arith, ltb, leb, ◌==◌, if◌then◌else◌, ltb→lt,
  lt→ltb, le→ltb, ltb-false, leb→le, leb-false, leb-gt, leb-true, ==_iff, ==_refl, ne→==, ==_false,
  Bool-cases, Option-cases, length, get_elem?, get_or, set, replicate, rev_onto, length-append,
  length-set, length-replicate, get_or-replicate, get_or-set, get_elem?-get_or,
}

-- `DIGITS_LOWERCASE` and `DIGITS_UPPERCASE`, with the NUL that ends each
abbrev pub digits_lowercase : List ℕ
digits_lowercase =
    48 ∷ 49 ∷ 50 ∷ 51 ∷ 52 ∷ 53 ∷ 54 ∷ 55 ∷ 56 ∷ 57 ∷ 97 ∷ 98 ∷ 99 ∷ 100 ∷ 101 ∷ 102 ∷ 0 ∷ []

abbrev pub digits_uppercase : List ℕ
digits_uppercase =
    48 ∷ 49 ∷ 50 ∷ 51 ∷ 52 ∷ 53 ∷ 54 ∷ 55 ∷ 56 ∷ 57 ∷ 65 ∷ 66 ∷ 67 ∷ 68 ∷ 69 ∷ 70 ∷ 0 ∷ []

abbrev pub digits_for : Bool → List ℕ
digits_for uppercase = if uppercase then digits_uppercase else digits_lowercase

abbrev pub Buffer : Type 0
Buffer = ℕ → ℕ

-- The loop over the digits, with the elements of the buffer that are left behind index `i`; it gives the
-- last index and the buffer.
pub put_digits : ℕ → ℕ → ℕ → ℕ → Bool → Buffer → Option (ℕ × Buffer)
put_digits zero i num base uppercase buffer = if num == 0 then some (i, buffer) else none
put_digits (suc room) i num base uppercase buffer = if num == 0 then some (i, buffer) else (do
  c ← get_elem? (digits_for uppercase) (num % base)
  put_digits room (suc i) (num / base) base uppercase (update buffer (suc i) c))

-- the loop that pads, for the rounds that are left
pub put_pad : ℕ → ℕ → ℕ → ℕ → Buffer → Option (ℕ × Buffer)
put_pad zero room i pad buffer = some (i, buffer)
put_pad (suc n) zero i pad buffer = none
put_pad (suc n) (suc room) i pad buffer = put_pad n room (suc i) pad (update buffer (suc i) pad)

-- the loop that prints, `while (--i >= 0)`
pub print_down : ℕ → Buffer → List ℕ
print_down zero buffer = []
print_down (suc i) buffer = buffer i ∷ print_down i buffer

-- `buffer` is what stands in the 32 bytes of the local array before the call
pub kprintnp : Buffer → ℕ → ℕ → Bool → ℕ → ℕ → Option (List ℕ)
kprintnp buffer num base uppercase width pad = do
  (i, buffer) ←
      if num == 0
      then some (1, update buffer 1 48)
      else (if base == 0 then none else put_digits 31 0 num base uppercase buffer)
  (i, buffer) ← put_pad (width - i) (31 - i) i pad buffer
  some (print_down i buffer)

-- `num` is an `int64_t` as its 64 bits
unfoldable pub kprintns : Buffer → ℕ → ℕ → Option (List ℕ)
kprintns buffer num base =
    if leb (2 ^ 63) num
    then (do out ← kprintnp buffer (2 ^ 64 - num) base false 0 32; some (45 ∷ out))
    else kprintnp buffer num base false 0 32

-- an argument of the variable list: the 64 bits of a register, or a pointer to a string
pub data Arg : Type 0 where
  bits : ℕ → Arg
  string : List ℕ → Arg

-- `while (*format >= '0' && *format <= '9')`: the width, and the format behind it
abbrev pub read_width : ℕ → List ℕ → ℕ × List ℕ
read_width width [] = (width, [])
read_width width (c ∷ cs) =
    if leb 48 c && leb c 57 then read_width (width * 10 + (c - 48)) cs else (width, c ∷ cs)

-- the pad character, and the format behind the flag
abbrev pub read_pad : List ℕ → ℕ × List ℕ
read_pad [] = (32, [])
read_pad (c ∷ cs) = if c == 48 then (48, cs) else (32, c ∷ cs)

abbrev pub read_long : List ℕ → Bool × List ℕ
read_long [] = (false, [])
read_long (c ∷ cs) = if c == 108 then (true, cs) else (false, c ∷ cs)

-- `va_arg` for an integer
abbrev pub take_bits : List Arg → Option (ℕ × List Arg)
take_bits (bits n ∷ args) = some (n, args)
take_bits _ = none

-- `int` as its 64 bits
abbrev pub sign_extend : ℕ → ℕ
sign_extend n = if leb (2 ^ 31) (n % 2 ^ 32) then 2 ^ 64 - 2 ^ 32 + n % 2 ^ 32 else n % 2 ^ 32

-- "(null)" for a null pointer
abbrev pub take_string : List Arg → Option (List ℕ × List Arg)
take_string (string s ∷ args) = some (s, args)
take_string (bits zero ∷ args) = some (40 ∷ 110 ∷ 117 ∷ 108 ∷ 108 ∷ 41 ∷ [], args)
take_string _ = none

-- a conversion of an unsigned number
pub convert_number : Buffer → ℕ → Bool → ℕ → ℕ → Bool → List Arg → Option (List ℕ × ℕ × List Arg)
convert_number buffer base uppercase width pad is_long args = do
  (n, rest) ← take_bits args
  out ← kprintnp buffer (if is_long then n % 2 ^ 64 else n % 2 ^ 32) base uppercase width pad
  some (out, 1, rest)

unfoldable pub convert_signed : Buffer → Bool → List Arg → Option (List ℕ × ℕ × List Arg)
convert_signed buffer is_long args = do
  (n, rest) ← take_bits args
  out ← kprintns buffer (if is_long then n % 2 ^ 64 else sign_extend n) 10
  some (out, 1, rest)

-- The switch on the conversion: what it prints, what it adds to the count, and the arguments behind it.
pub convert : Buffer → ℕ → ℕ → ℕ → Bool → List Arg → Option (List ℕ × ℕ × List Arg)
convert buffer c width pad is_long args =
    if c == 99
    then (do (n, rest) ← take_bits args; some (n % 256 ∷ [], 1, rest))
    else (if c == 115
        then (do (s, rest) ← take_string args; some (s, length s, rest))
        else (if (c == 100) || (c == 105)
            then convert_signed buffer is_long args
            else (if c == 117
                then convert_number buffer 10 false width pad is_long args
                else (if c == 120
                    then convert_number buffer 16 false width pad is_long args
                    else (if c == 88
                        then convert_number buffer 16 true width pad is_long args
                        else (if c == 112
                            then (do
                              (n, rest) ← take_bits args
                              out ← kprintnp buffer (n % 2 ^ 64) 16 false 16 48
                              some (48 ∷ 120 ∷ out, 1, rest))
                            else (if c == 37
                                then some (37 ∷ [], 1, args)
                                else some (37 ∷ c ∷ [], 2, args))))))))

-- the conversion character and what is behind it; a format that ends in a directive is read past its NUL
pub convert_at : Buffer → ℕ → ℕ → Bool → List ℕ → List Arg → Option (List ℕ × ℕ × List ℕ × List Arg)
convert_at buffer width pad is_long [] args = none
convert_at buffer width pad is_long (c ∷ rest) args = do
  (out, n, args') ← convert buffer c width pad is_long args
  some (out, n, rest, args')

-- a directive behind its per cent sign
pub directive : Buffer → List ℕ → List Arg → Option (List ℕ × ℕ × List ℕ × List Arg)
directive buffer format args =
    let (pad, flagged) = read_pad format in
    let (width, wide) = read_width 0 flagged in
    let (is_long, conversion) = read_long wide in
    convert_at buffer width pad is_long conversion args

-- How a run of kprintf ends: with what it has printed and the count; where it reads or writes outside of its
-- format, its arguments or its buffers; or without an end, when the rounds of its loop are used up.
pub data Output : Type 0 where
  finished : List ℕ → ℕ → Output
  outside out_of_fuel : Output

-- what the rest of a run prints comes behind `out`
abbrev pub behind : List ℕ → ℕ → Output → Output
behind out n (finished more count) = finished (out ++ more) (n + count)
behind out n outside = outside
behind out n out_of_fuel = out_of_fuel

-- The loop of kprintf: what it prints and the count. `stack n` is the buffer of the kprintnp that is
-- called when n arguments are left.
pub kprintf_from : ℕ → (ℕ → Buffer) → List ℕ → List Arg → Output
kprintf_from fuel stack [] args = finished [] 0
kprintf_from zero stack (c ∷ cs) args = out_of_fuel
kprintf_from (suc f) stack (c ∷ cs) args =
    if c == 37
    then elim (directive (stack (length args)) cs args) [
      | none ↦ outside
      | some (out, n, rest, args') ↦ behind out n (kprintf_from f stack rest args')
    ]
    else behind (c ∷ []) 1 (kprintf_from f stack cs args)

-- a round of the loop reads a character at least
pub kprintf : (ℕ → Buffer) → List ℕ → List Arg → Output
kprintf stack format args = kprintf_from (length format) stack format args
