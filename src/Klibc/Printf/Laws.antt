-- ===== src/Klibc/Printf/Laws.antt =====
-- What kprintnp prints of a number.
use goshkik_os.Prelude.Memory.{update, update_same, update_other}
use goshkik_os.Klibc.Str.{◌>>=◌}
use goshkik_os.Klibc.Printf.{
  digits_for, digits_lowercase, digits_uppercase, Buffer, put_digits, put_pad, print_down, kprintnp,
}
use goshkik_os.Prelude.{
  ℕ, zero, suc, ◌+◌, ◌-◌, ◌/◌, ◌%◌, ◌≤◌, ◌<◌, ◌≡◌, refl, ap, ap₂, ◌∙◌, ◌≢◌, ◌⊎◌, inl, inr, Bool,
  true, false, Option, none, some, List, [], ◌∷◌, ◌++◌, arith, leb, ◌==◌, if◌then◌else◌, leb→le,
  leb-false, leb-gt, leb-true, ==_iff, ne→==, ==_false, Bool-cases, length, get_elem?, get_or,
  replicate, rev_onto, length-append, get_elem?-get_or,
}

-- the buffer with characters behind index i
abbrev pub fill : Buffer → ℕ → List ℕ → Buffer
fill b i [] = b
fill b i (c ∷ cs) = fill (update b (suc i) c) (suc i) cs

-- the digits of a number from the lowest, none for 0
abbrev pub digits_of : ℕ → ℕ → ℕ → Bool → List ℕ
digits_of zero n base up = []
digits_of (suc f) n base up =
    if n == 0 then [] else get_or (digits_for up) (n % base) 0 ∷ digits_of f (n / base) base up

abbrev IsBase : ℕ → Type 0
IsBase base = (base ≡ 10) ⊎ (base ≡ 16)

quotient_small : (f n base : ℕ) → IsBase base → (n == 0) ≡ false → n ≤ suc f → n / base ≤ f
quotient_small f n base (inl e) nz small = rw (e) (omega (arith, ==_false n 0 nz))
quotient_small f n base (inr e) nz small = rw (e) (omega (arith, ==_false n 0 nz))

digit_known :
    (up : Bool) (k : ℕ) → k < 17 → get_elem? (digits_for up) k ≡ some (get_or (digits_for up) k 0)
digit_known true k small = get_elem?-get_or digits_uppercase k 0 small
digit_known false k small = get_elem?-get_or digits_lowercase k 0 small

digit_small : (n base : ℕ) → IsBase base → n % base < 17
digit_small n base (inl e) = rw (e) (omega arith)
digit_small n base (inr e) = rw (e) (omega arith)

-- the outcome of a loop that stores the characters behind index i when there is room for them
abbrev pub stored : ℕ → ℕ → List ℕ → Buffer → Option (ℕ × Buffer)
stored room i cs b = if leb (length cs) room then some (i + length cs, fill b i cs) else none

stored_nil : (room i : ℕ) (b : Buffer) → some (i, b) ≡ stored room i [] b
stored_nil room i b = rw (leb-true 0 room (omega arith)) (ap (λ m. some (m, b)) (omega arith))

stored_cons :
    (room i c : ℕ) (cs : List ℕ) (b : Buffer)
    → stored room (suc i) cs (update b (suc i) c) ≡ stored (suc room) i (c ∷ cs) b
stored_cons room i c cs b = elim (Bool-cases (leb (length cs) room)) [
  | inl e ↦
      rw (e, leb-true (suc (length cs)) (suc room) (omega (arith, leb→le _ _ e)))
        (ap (λ m. some (m, fill (update b (suc i) c) (suc i) cs)) (omega arith))
  | inr e ↦ rw (e, leb-gt (suc (length cs)) (suc room) (omega (arith, leb-false _ _ e))) refl
]

put_digits_done :
    (room i n base : ℕ) (up : Bool) (b : Buffer)
    → (n == 0) ≡ true
    → put_digits room i n base up b ≡ some (i, b)
unfolding put_digits
put_digits_done zero i n base up b e = rw (e)
put_digits_done (suc room) i n base up b e = rw (e)

put_digits_lem :
    (room f i n base : ℕ) (up : Bool) (b : Buffer)
    → IsBase base
    → n ≤ f
    → put_digits room i n base up b ≡ stored room i (digits_of f n base up) b
unfolding put_digits
put_digits_lem room zero i n base up b base_ok small =
    put_digits_done room i n base up b ((==_iff n 0).1 (omega arith)) ∙ stored_nil room i b
put_digits_lem zero (suc f) i n base up b base_ok small = elim (Bool-cases (n == 0)) [
  | inl e ↦ rw (e) (stored_nil 0 i b)
  | inr e ↦ rw (e, leb-gt (suc (length (digits_of f (n / base) base up))) 0 (omega arith)) refl
]
put_digits_lem (suc room) (suc f) i n base up b base_ok small = elim (Bool-cases (n == 0)) [
  | inl e ↦ rw (e) (stored_nil (suc room) i b)
  | inr e ↦
      let c = get_or (digits_for up) (n % base) 0 in
      rw (e, digit_known up (n % base) (digit_small n base base_ok))
        (put_digits_lem room f (suc i) (n / base) base up (update b (suc i) c) base_ok
            (quotient_small f n base base_ok e small)
          ∙ stored_cons room i c (digits_of f (n / base) base up) b)
]

put_pad_lem :
    (n room i pad : ℕ) (b : Buffer) → put_pad n room i pad b ≡ stored room i (replicate n pad) b
unfolding put_pad
put_pad_lem zero room i pad b = stored_nil room i b
put_pad_lem (suc n) zero i pad b = rw (leb-gt (suc (length (replicate n pad))) 0 (omega arith)) refl
put_pad_lem (suc n) (suc room) i pad b =
    put_pad_lem n room (suc i) pad (update b (suc i) pad)
    ∙ stored_cons room i pad (replicate n pad) b

-- all but the last
abbrev pub init : List ℕ → List ℕ
init [] = []
init (x ∷ []) = []
init (x ∷ y ∷ ys) = x ∷ init (y ∷ ys)

print_down-update : (i k c : ℕ) (b : Buffer) → i ≤ k → print_down i (update b k c) ≡ print_down i b
unfolding print_down
print_down-update zero k c b small = refl
print_down-update (suc i) k c b small =
    ap₂ (λ x xs. x ∷ xs) (update_other b k c i (λ e. ground arith))
      (print_down-update i k c b (omega arith))

add_one : (i : ℕ) → i + 1 ≡ suc i
add_one i = omega arith

print_down-fill :
    (c : ℕ) (cs : List ℕ) (i : ℕ) (b : Buffer)
    → print_down (i + length (c ∷ cs)) (fill b i (c ∷ cs))
      ≡ rev_onto (init (c ∷ cs)) (print_down (suc i) b)
unfolding print_down
print_down-fill c [] i b =
    ap (λ m. print_down m (update b (suc i) c)) (add_one i)
    ∙ print_down-update (suc i) (suc i) c b (omega arith)
print_down-fill c (d ∷ cs) i b =
    ap (λ m. print_down m (fill (update b (suc i) c) (suc i) (d ∷ cs))) (omega arith)
    ∙ print_down-fill d cs (suc i) (update b (suc i) c)
    ∙ ap₂ (λ x xs. rev_onto (init (d ∷ cs)) (x ∷ xs)) (update_same b (suc i) c)
        (print_down-update (suc i) (suc i) c b (omega arith))

fill-append :
    (ds es : List ℕ) (i : ℕ) (b : Buffer)
    → fill (fill b i ds) (i + length ds) es ≡ fill b i (ds ++ es)
fill-append [] es i b = ap (λ m. fill b m es) (omega arith)
fill-append (d ∷ ds) es i b =
    ap (λ m. fill (fill (update b (suc i) d) (suc i) ds) m es) (omega arith)
    ∙ fill-append ds es (suc i) (update b (suc i) d)

-- two loops in a row, when there was room for the first
stored-append :
    (ds es : List ℕ) (b : Buffer)
    → length ds ≤ 31
    → stored (31 - length ds) (length ds) es (fill b 0 ds) ≡ stored 31 0 (ds ++ es) b
stored-append ds es b small = elim (Bool-cases (leb (length es) (31 - length ds))) [
  | inl e ↦
      rw (e, leb-true (length (ds ++ es)) 31 (omega (arith, length-append ds es, leb→le _ _ e)))
        (ap₂ (λ m x. some (m, x)) (omega (arith, length-append ds es))
          (ap (λ m. fill (fill b 0 ds) m es) (omega arith) ∙ fill-append ds es 0 b))
  | inr e ↦
      rw (e, leb-gt (length (ds ++ es)) 31 (omega (arith, length-append ds es, leb-false _ _ e)))
        refl
]

-- the characters that kprintnp stores: the digits from the lowest, then the padding
abbrev pub stored_chars : ℕ → ℕ → Bool → ℕ → ℕ → List ℕ
stored_chars num base up width pad =
    let ds = if num == 0 then 48 ∷ [] else digits_of num num base up in
    ds ++ replicate (width - length ds) pad

-- What kprintnp would print of the stored characters: all but the last one stored, from the last to the first,
-- and then the first byte of the buffer.
abbrev pub printed : Buffer → List ℕ → Option (List ℕ)
printed b cs = if leb (length cs) 31 then some (rev_onto (init cs) (b 0 ∷ [])) else none

print_stored :
    (b : Buffer) (c : ℕ) (cs : List ℕ)
    → (do (i, buffer) ← stored 31 0 (c ∷ cs) b; some (print_down i buffer)) ≡ printed b (c ∷ cs)
unfolding print_down
print_stored b c cs = elim (Bool-cases (leb (length (c ∷ cs)) 31)) [
  | inl e ↦ rw (e) (ap some (print_down-fill c cs 0 b))
  | inr e ↦ rw (e) refl
]

abbrev finish : Option (ℕ × Buffer) → Option (List ℕ)
finish r = do (i, buffer) ← r; some (print_down i buffer)

-- the digits are stored, and the padding follows
padded :
    (b : Buffer) (c : ℕ) (cs : List ℕ) (width pad : ℕ)
    → length (c ∷ cs) ≤ 31
    → finish (
        put_pad
          (width - length (c ∷ cs))
          (31 - length (c ∷ cs))
          (length (c ∷ cs))
          pad
          (fill b 0 (c ∷ cs)))
      ≡ printed b (c ∷ cs ++ replicate (width - length (c ∷ cs)) pad)
padded b c cs width pad small =
    let es = replicate (width - length (c ∷ cs)) pad in
    ap finish (put_pad_lem _ _ _ pad _ ∙ stored-append (c ∷ cs) es b small)
    ∙ print_stored b c (cs ++ es)

digits_known :
    (n base : ℕ) (up : Bool) → n ≢ 0 → (c : ℕ) × (cs : List ℕ) × (digits_of n n base up ≡ c ∷ cs)
digits_known zero base up nz = absurd (nz refl)
digits_known (suc f) base up nz = (
  get_or (digits_for up) (suc f % base) 0,
  digits_of f (suc f / base) base up,
  rw (ne→== (suc f) 0 nz) refl,
)

zero_add : (i : ℕ) → 0 + i ≡ i
zero_add i = omega arith

base_known : (base : ℕ) → IsBase base → (base == 0) ≡ false
base_known base (inl e) = rw (e) refl
base_known base (inr e) = rw (e) refl

-- kprintnp in base 10 or 16. The digits of the number from the lowest and then the padding are stored from
-- index 1 on; when they are 31 at most, all of them but the last one stored are printed, from the last to the
-- first, and then the byte that stood at index 0 before the call. More characters overrun the buffer.
pub kprintnp_lem :
    (b : Buffer) (num base : ℕ) (up : Bool) (width pad : ℕ)
    → (base ≡ 10) ⊎ (base ≡ 16)
    → kprintnp b num base up width pad ≡ printed b (stored_chars num base up width pad)
unfolding kprintnp
kprintnp_lem b num base up width pad base_ok = elim (Bool-cases (num == 0)) [
  | inl e ↦ rw (e) (padded b 48 [] width pad (omega arith))
  | inr e ↦
      let (c, cs, eq) = digits_known num base up (==_false num 0 e) in
      elim (Bool-cases (leb (length (c ∷ cs)) 31)) [
        | inl small ↦
            rw
              (
                e,
                base_known base base_ok,
                put_digits_lem 31 num 0 num base up b base_ok (omega arith),
                eq,
                small,
                zero_add (length (c ∷ cs)),
              )
              (padded b c cs width pad (leb→le _ _ small))
        | inr large ↦
            rw
              (
                e,
                base_known base base_ok,
                put_digits_lem 31 num 0 num base up b base_ok (omega arith),
                eq,
                large,
                leb-gt (suc (length (cs ++ replicate (width - suc (length cs)) pad))) 31 (
                    omega (
                      arith,
                      length-append cs (replicate (width - suc (length cs)) pad),
                      leb-false _ _ large,
                    )),
              )
              refl
      ]
]
