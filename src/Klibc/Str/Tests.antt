-- ===== src/Klibc/Str/Tests.antt =====
-- Runs of string.c and its theorems at concrete strings.
use goshkik_os.Prelude.{
  ℕ, zero, suc, ◌+◌, ◌-◌, ◌<◌, ◌≡◌, refl, ◌≢◌, inr, some, [], ◌∷◌, arith, ltb, if◌then◌else◌,
  get_or,
}
use goshkik_os.Prelude.Memory.{Memory}
use goshkik_os.Klibc.Mem.Laws.{copied}
use goshkik_os.Klibc.Str.{
  strlen, stpcpy, strchr, strstr, strstr_from, prefix_at, strdup, strtok_r, skip_delims, skip_token,
  strlcpy,
}
use goshkik_os.Klibc.Str.Lengths.{IsString, strlen_lem}
use goshkik_os.Klibc.Str.Copies.{stpcpy_lem, strcpy_lem}
use goshkik_os.Klibc.Str.Bounded.{bounded_copy, strlcpy_lem}

-- "abac" at 10, "ab" at 20, NUL everywhere else
abbrev text : Memory
text a =
    if ltb a 10
    then 0
    else get_or (97 ∷ 98 ∷ 97 ∷ 99 ∷ 0 ∷ 0 ∷ 0 ∷ 0 ∷ 0 ∷ 0 ∷ 97 ∷ 98 ∷ []) (a - 10) 0

-- The strings above hold no NUL before their ends.
abac : IsString text 10 4
abac = record { full = inside; ends = refl }
  where
    inside : (i : ℕ) → i < 4 → text (10 + i) ≢ 0
    inside zero h e = cc
    inside (suc zero) h e = cc
    inside (suc (suc zero)) h e = cc
    inside (suc (suc (suc zero))) h e = cc
    inside (suc (suc (suc (suc i)))) h e = absurd (omega arith)

ab : IsString text 20 2
ab = record { full = inside; ends = refl }
  where
    inside : (i : ℕ) → i < 2 → text (20 + i) ≢ 0
    inside zero h e = cc
    inside (suc zero) h e = cc
    inside (suc (suc i)) h e = absurd (omega arith)

found : strstr 9 10 20 text ≡ some 10
unfolding strstr strstr_from prefix_at
found = refl

second_word : strtok_r 9 0 20 12 text ≡ some (13, 14)
unfolding strtok_r skip_delims skip_token strchr
second_word = refl

copied_string : strdup 9 (λ n. 50 + n) 20 text ≡ some (53, copied 3 53 20 text)
unfolding strdup
copied_string = rw (
  strlen_lem 9 20 2 text ab (omega arith),
  (strcpy_lem 9 53 20 2 text ab (omega arith) (inr (omega arith))).0,
)

strlen_lem_example : strlen 9 10 text ≡ some 4
strlen_lem_example = strlen_lem 9 10 4 text abac (omega arith)

stpcpy_lem_example : stpcpy 9 50 10 text ≡ some (54, copied 5 50 10 text)
stpcpy_lem_example = stpcpy_lem 9 50 10 4 text abac (omega arith) (inr (omega arith))

strlcpy_lem_example : strlcpy 9 50 10 3 text ≡ some (4, bounded_copy 4 3 50 10 text)
strlcpy_lem_example = strlcpy_lem 9 50 10 3 4 text abac (omega arith) (inr (omega arith))
