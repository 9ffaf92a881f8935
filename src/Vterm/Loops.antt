-- ===== src/Vterm/Loops.antt =====
-- The loops of vterm.c write nothing outside their rows.
use goshkik_os.Vterm.{Pixels, put, fill_row, fill_rows, draw_bits, draw_rows}
use goshkik_os.Prelude.{
  ℕ, zero, suc, ◌+◌, ◌*◌, ◌/◌, ◌%◌, ◌^◌, ◌≤◌, ◌<◌, ◌≡◌, refl, ◌∙◌, ◌≢◌, ◌⊎◌, inl, inr, Bool, true,
  false, arith, ◌==◌, if◌then◌else◌, ne→==,
}

-- no pixel from `low` up to `high` is left out, and none outside is changed
abbrev pub Within : ℕ → ℕ → Pixels → Pixels → Type 0
Within low high before after = (k : ℕ) → (k < low) ⊎ (high ≤ k) → after k ≡ before k

pub put_other : (pixels : Pixels) (i color k : ℕ) → i ≢ k → put pixels i color k ≡ pixels k
put_other pixels i color k ne = rw (ne→== i k ne) refl

pub fill_row-Within :
    (n i color : ℕ) (pixels : Pixels) (low high : ℕ)
    → low ≤ i
    → i + n ≤ high
    → Within low high pixels (fill_row n i color pixels)
unfolding fill_row
fill_row-Within zero i color pixels low high h h' k out = refl
fill_row-Within (suc n) i color pixels low high h h' k out =
    fill_row-Within n (suc i) color (put pixels i color) low high (omega arith) (omega arith) k out
    ∙ put_other pixels i color k (λ e. absurd (outside k out e))
  where
    outside : (k : ℕ) → (k < low) ⊎ (high ≤ k) → i ≡ k → ⊥
    outside k (inl a) e = omega arith
    outside k (inr b) e = omega arith

pub fill_rows-Within :
    (n stride width i color : ℕ) (pixels : Pixels) (low high : ℕ)
    → width ≤ stride
    → low ≤ i
    → i + n * stride ≤ high
    → Within low high pixels (fill_rows n stride width i color pixels)
unfolding fill_rows
fill_rows-Within zero stride width i color pixels low high fits h h' k out = refl
fill_rows-Within (suc n) stride width i color pixels low high fits h h' k out =
    let more : suc n * stride ≡ stride + n * stride = omega arith in
    fill_rows-Within n stride width (i + stride) color (fill_row width i color pixels) low high fits
      (omega arith) (omega arith) k out
    ∙ fill_row-Within width i color pixels low high h (omega arith) k out

pub draw_bits-Within :
    (n row i color : ℕ) (pixels : Pixels) (low high : ℕ)
    → low ≤ i
    → i + n ≤ high
    → Within low high pixels (draw_bits n row i color pixels)
unfolding draw_bits
draw_bits-Within zero row i color pixels low high h h' k out = refl
draw_bits-Within (suc n) row i color pixels low high h h' k out =
    draw_bits-Within n row (suc i) color
      (if row / 2 ^ n % 2 == 0 then pixels else put pixels i color) low high (omega arith)
      (omega arith) k out
    ∙ one (row / 2 ^ n % 2 == 0) k (λ e. absurd (outside k out e))
  where
    outside : (k : ℕ) → (k < low) ⊎ (high ≤ k) → i ≡ k → ⊥
    outside k (inl a) e = omega arith
    outside k (inr b) e = omega arith

    one :
        (clear : Bool) (k : ℕ) → i ≢ k → (if clear then pixels else put pixels i color) k ≡ pixels k
    one true k ne = refl
    one false k ne = put_other pixels i color k ne

pub draw_rows-Within :
    (font : ℕ → ℕ) (n glyph stride i color : ℕ) (pixels : Pixels) (low high : ℕ)
    → low ≤ i
    → i + n * stride + 8 ≤ high + stride
    → Within low high pixels (draw_rows font n glyph stride i color pixels)
unfolding draw_rows
draw_rows-Within font zero glyph stride i color pixels low high h h' k out = refl
draw_rows-Within font (suc n) glyph stride i color pixels low high h h' k out =
    let more : suc n * stride ≡ stride + n * stride = omega arith in
    draw_rows-Within font n (suc glyph) stride (i + stride) color
      (draw_bits 8 (font glyph) i color pixels) low high (omega arith) (omega arith) k out
    ∙ draw_bits-Within 8 (font glyph) i color pixels low high h (omega arith) k out
