-- ===== src/Klibc/Printf/Format.antt =====
-- The loop of kprintf over its format.
use goshkik_os.Klibc.Str.{◌>>=◌}
use goshkik_os.Klibc.Printf.{
  Buffer, Arg, read_pad, read_width, read_long, convert, convert_at, directive, kprintf_from,
  kprintf, Output, finished, outside, behind,
}
use goshkik_os.Prelude.{
  ℕ, zero, suc, ◌+◌, ◌-◌, ◌*◌, ◌≤◌, ◌<◌, ◌≡◌, refl, sym, ap, ◌∙◌, subst, ◌≢◌, ◌⊎◌, inl, inr, Bool,
  ◌&&◌, Option, none, some, List, [], ◌∷◌, ◌++◌, arith, leb, ◌==◌, ==_iff, ne→==, ==_false,
  Bool-cases, Option-cases, length, get_or,
}

plain_text :
    (fuel : ℕ) (stack : ℕ → Buffer) (format : List ℕ) (args : List Arg)
    → ((i : ℕ) → i < length format → get_or format i 0 ≢ 37)
    → length format ≤ fuel
    → kprintf_from fuel stack format args ≡ finished format (length format)
unfolding kprintf_from
plain_text fuel stack [] args plain enough = refl
plain_text zero stack (c ∷ cs) args plain enough = absurd (omega arith)
plain_text (suc f) stack (c ∷ cs) args plain enough =
    rw
      (
        ne→== c 37 (plain 0 (omega arith)),
        plain_text f stack cs args (λ i small. plain (suc i) (omega arith)) (omega arith),
      )
      (ap (finished (c ∷ cs)) (omega arith))

-- A format without a per cent sign is printed as it stands, and the count is its length.
pub kprintf_plain :
    (stack : ℕ → Buffer) (format : List ℕ) (args : List Arg)
    → ((i : ℕ) → i < length format → get_or format i 0 ≢ 37)
    → kprintf stack format args ≡ finished format (length format)
unfolding kprintf
kprintf_plain stack format args plain =
    plain_text (length format) stack format args plain (omega arith)

length-read_pad : (cs : List ℕ) → length (read_pad cs).1 ≤ length cs
length-read_pad [] = omega arith
length-read_pad (c ∷ cs) = elim (Bool-cases (c == 48)) [
  | inl e ↦ rw (e) (omega arith)
  | inr e ↦ rw (e) (omega arith)
]

length-read_long : (cs : List ℕ) → length (read_long cs).1 ≤ length cs
length-read_long [] = omega arith
length-read_long (c ∷ cs) = elim (Bool-cases (c == 108)) [
  | inl e ↦ rw (e) (omega arith)
  | inr e ↦ rw (e) (omega arith)
]

length-read_width : (w : ℕ) (cs : List ℕ) → length (read_width w cs).1 ≤ length cs
length-read_width w [] = omega arith
length-read_width w (c ∷ cs) = elim (Bool-cases (leb 48 c && leb c 57)) [
  | inl e ↦ rw (e) (omega (arith, length-read_width (w * 10 + (c - 48)) cs))
  | inr e ↦ rw (e) (omega arith)
]

rest_of :
    (o : Option (List ℕ × ℕ × List Arg)) (rest : List ℕ) (x : List ℕ × ℕ × List ℕ × List Arg)
    → (do (out, n, args') ← o; some (out, n, rest, args')) ≡ some x
    → x.2 ≡ rest
rest_of none rest x e = absurd (cc)
rest_of (some y) rest x e = cc

length-convert_at :
    (b : Buffer) (width pad : ℕ) (is_long : Bool) (format : List ℕ) (args : List Arg)
    (x : List ℕ × ℕ × List ℕ × List Arg)
    → convert_at b width pad is_long format args ≡ some x
    → length x.2 ≤ length format
unfolding convert_at
length-convert_at b width pad is_long [] args x e = absurd (cc)
length-convert_at b width pad is_long (c ∷ rest) args x e =
    subst (λ r. length r ≤ suc (length rest))
      (sym (rest_of (convert b c width pad is_long args) rest x e)) (omega arith)

length-directive :
    (b : Buffer) (format : List ℕ) (args : List Arg) (x : List ℕ × ℕ × List ℕ × List Arg)
    → directive b format args ≡ some x
    → length x.2 ≤ length format
unfolding directive
length-directive b format args x e =
    let flagged = (read_pad format).1 in
    let wide = (read_width 0 flagged).1 in
    let h = length-convert_at b _ _ _ (read_long wide).1 args x e in
    omega (arith, h, length-read_long wide, length-read_width 0 flagged, length-read_pad format)

-- What a format prints, as rules: nothing at its end, a character that is no per cent sign as it stands,
-- and what its directive gives for a per cent sign.
module _ (stack : ℕ → Buffer) where
  pub data Prints : List ℕ → List Arg → List ℕ → ℕ → Type 0 where
    at_end : (args : List Arg) → Prints [] args [] 0
    at_char :
        (c : ℕ) (cs : List ℕ) (args : List Arg) (out : List ℕ) (n : ℕ)
        → c ≢ 37
        → Prints cs args out n
        → Prints (c ∷ cs) args (c ∷ out) (suc n)
    at_directive :
        (cs : List ℕ) (args : List Arg) (now : List ℕ) (k : ℕ) (rest : List ℕ) (args' : List Arg)
        (out : List ℕ) (n : ℕ)
        → directive (stack (length args)) cs args ≡ some (now, k, rest, args')
        → Prints rest args' out n
        → Prints (37 ∷ cs) args (now ++ out) (k + n)

  -- a directive on the way goes outside
  pub data Leaves : List ℕ → List Arg → Type 0 where
    leaves_now :
        (cs : List ℕ) (args : List Arg)
        → directive (stack (length args)) cs args ≡ none
        → Leaves (37 ∷ cs) args
    leaves_behind_char :
        (c : ℕ) (cs : List ℕ) (args : List Arg) → c ≢ 37 → Leaves cs args → Leaves (c ∷ cs) args
    leaves_behind_directive :
        (cs : List ℕ) (args : List Arg) (now : List ℕ) (k : ℕ) (rest : List ℕ) (args' : List Arg)
        → directive (stack (length args)) cs args ≡ some (now, k, rest, args')
        → Leaves rest args'
        → Leaves (37 ∷ cs) args

-- the run ended by one of the rules, not for want of fuel
abbrev pub Ends : (ℕ → Buffer) → List ℕ → List Arg → Output → Type 0
Ends stack format args r =
    ((out : List ℕ) × (n : ℕ) × (r ≡ finished out n) × Prints stack format args out n)
    ⊎ ((r ≡ outside) × Leaves stack format args)

module _ (stack : ℕ → Buffer) (args : List Arg) where
  Ends-char :
      (c : ℕ) (cs : List ℕ) (r : Output)
      → c ≢ 37
      → Ends stack cs args r
      → Ends stack (c ∷ cs) args (behind (c ∷ []) 1 r)
  Ends-char c cs r ne (inl (out, n, e, p)) = inl (
    c ∷ out,
    suc n,
    ap (behind (c ∷ []) 1) e ∙ ap (finished (c ∷ out)) (omega arith),
    at_char c cs args out n ne p,
  )
  Ends-char c cs r ne (inr (e, l)) =
      inr (ap (behind (c ∷ []) 1) e, leaves_behind_char c cs args ne l)

  Ends-directive :
      (cs now : List ℕ) (k : ℕ) (rest : List ℕ) (args' : List Arg) (r : Output)
      → directive (stack (length args)) cs args ≡ some (now, k, rest, args')
      → Ends stack rest args' r
      → Ends stack (37 ∷ cs) args (behind now k r)
  Ends-directive cs now k rest args' r d (inl (out, n, e, p)) =
      inl (now ++ out, k + n, ap (behind now k) e, at_directive cs args now k rest args' out n d p)
  Ends-directive cs now k rest args' r d (inr (e, l)) =
      inr (ap (behind now k) e, leaves_behind_directive cs args now k rest args' d l)

-- With as much fuel as the format has characters, the loop of kprintf ends and never runs out of fuel: it
-- returns and has printed what the rules say, with their count, or a directive on the way goes outside of
-- the format, the arguments or the buffer.
pub kprintf_from-Ends :
    (fuel : ℕ) (stack : ℕ → Buffer) (format : List ℕ) (args : List Arg)
    → length format ≤ fuel
    → Ends stack format args (kprintf_from fuel stack format args)
unfolding kprintf_from
kprintf_from-Ends fuel stack [] args enough = inl ([], 0, refl, at_end args)
kprintf_from-Ends zero stack (c ∷ cs) args enough = absurd (omega arith)
kprintf_from-Ends (suc f) stack (c ∷ cs) args enough = elim (Bool-cases (c == 37)) [
  | inl e ↦ elim (Option-cases (directive (stack (length args)) cs args)) [
    | inl d ↦ rw (e, d, (==_iff c 37).0 e) (inr (refl, leaves_now cs args d))
    | inr ((now, k, rest, args'), d) ↦
        let shorter = length-directive (stack (length args)) cs args (now, k, rest, args') d in
        let tail = kprintf_from-Ends f stack rest args' (omega (arith, shorter)) in
        rw (e, d, (==_iff c 37).0 e) (Ends-directive stack args cs now k rest args' _ d tail)
  ]
  | inr e ↦ rw e (
      Ends-char stack args c cs _ (==_false c 37 e)
        (kprintf_from-Ends f stack cs args (omega arith)))
]
