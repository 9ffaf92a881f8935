-- ===== src/Klibc/Printf/Tests.antt =====
-- Runs of kprintf and kprintnp.
use goshkik_os.Klibc.Printf.{
  Buffer, bits, put_digits, put_pad, print_down, kprintnp, convert_number, convert, convert_at,
  directive, kprintf_from, kprintf, finished,
}
use goshkik_os.Klibc.Printf.Laws.{printed, stored_chars, kprintnp_lem}
use goshkik_os.Klibc.Printf.Format.{Ends, kprintf_from-Ends}
use goshkik_os.Prelude.{ℕ, ◌≡◌, refl, inr, false, some, List, [], ◌∷◌, arith}

-- what stands in the bytes of the stack: question marks
abbrev unset : Buffer
unset i = 63

-- "%c=%x" of 'k' and 4660
abbrev named_value : List ℕ
named_value = 37 ∷ 99 ∷ 61 ∷ 37 ∷ 120 ∷ []

-- 4660 in hexadecimal is 1234: its first digit is not printed
lost_digit : kprintnp unset 4660 16 false 0 32 ≡ some (50 ∷ 51 ∷ 52 ∷ 63 ∷ [])
unfolding kprintnp put_digits put_pad print_down
lost_digit = refl

named_value_run :
    kprintf (λ _. unset) named_value (bits 107 ∷ bits 4660 ∷ [])
    ≡ finished (107 ∷ 61 ∷ 50 ∷ 51 ∷ 52 ∷ 63 ∷ []) 3
unfolding kprintf kprintf_from directive convert_at convert convert_number kprintnp put_digits
    put_pad print_down
named_value_run = refl

kprintnp_lem_example :
    kprintnp unset 4660 16 false 6 48 ≡ printed unset (stored_chars 4660 16 false 6 48)
kprintnp_lem_example = kprintnp_lem unset 4660 16 false 6 48 (inr refl)

kprintf_from-Ends_example :
    Ends
      (λ _. unset)
      named_value
      (bits 107 ∷ bits 4660 ∷ [])
      (kprintf_from 5 (λ _. unset) named_value (bits 107 ∷ bits 4660 ∷ []))
kprintf_from-Ends_example =
    kprintf_from-Ends 5 (λ _. unset) named_value (bits 107 ∷ bits 4660 ∷ []) (omega arith)
