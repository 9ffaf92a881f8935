-- ===== src/Vterm/Bounds.antt =====
-- vterm.c writes only to the pixels of the screen.
use goshkik_os.Vterm.{Vterm, moved_up, vterm_scroll, new_line, draw_glyph, vterm_putc, vterm_print}
use goshkik_os.Vterm.Loops.{fill_rows-Within, draw_rows-Within}
use goshkik_os.Prelude.{
  ℕ, zero, suc, ◌+◌, ◌-◌, ◌*◌, ◌/◌, ◌%◌, ◌≤◌, ◌≡◌, refl, ◌∙◌, inl, inr, List, [], ◌∷◌, arith, ltb,
  ◌==◌, le→ltb, ltb-false, Bool-cases,
}

-- the words of a row, and of the screen
abbrev pub stride : Vterm → ℕ
stride t = t.pitch / 4

abbrev pub screen : Vterm → ℕ
screen t = t.height * stride t

-- The screen has room for a character, and the cursor stands where one fits in the rows.
pub record IsVterm (t : Vterm) : Type 0 where
  pub words : t.pitch ≡ 4 * stride t
  pub fits : t.width ≤ stride t
  pub wide : 8 ≤ t.width
  pub high : 16 ≤ t.height
  pub column : t.cursor_x ≤ t.width
  pub line : t.cursor_y + 16 ≤ t.height

-- the same screen, with no word outside of it written
pub record Stays (t t' : Vterm) : Type 0 where
  pub same_pitch : t'.pitch ≡ t.pitch
  pub same_width : t'.width ≡ t.width
  pub same_height : t'.height ≡ t.height
  pub outside : (k : ℕ) → screen t ≤ k → t'.framebuffer k ≡ t.framebuffer k

Stays-refl : (t : Vterm) → Stays t t
Stays-refl t = record {
  same_pitch = refl;
  same_width = refl;
  same_height = refl;
  outside = λ k h. refl;
}

Stays-trans : (t u v : Vterm) → Stays t u → Stays u v → Stays t v
Stays-trans t u v a b = record {
  same_pitch = b.same_pitch ∙ a.same_pitch;
  same_width = b.same_width ∙ a.same_width;
  same_height = b.same_height ∙ a.same_height;
  outside = λ k h. b.outside k (rw (a.same_height, a.same_pitch) h) ∙ a.outside k h;
}

pub more_rows : (a b s : ℕ) → a ≤ b → a * s ≤ b * s
more_rows zero b s h = omega arith
more_rows (suc a) zero s h = absurd (omega arith)
more_rows (suc a) (suc b) s h =
    let rest = more_rows a b s (omega arith) in
    let one : suc a * s ≡ s + a * s = omega arith in
    let one' : suc b * s ≡ s + b * s = omega arith in omega arith

rows_fit : (y height stride : ℕ) → y + 16 ≤ height → y * stride + 16 * stride ≤ height * stride
rows_fit y height stride h =
    let m = more_rows (y + 16) height stride h in
    let split : (y + 16) * stride ≡ y * stride + 16 * stride = omega arith in omega arith

-- the rows from the visible size on are the last 16
pub visible_rows :
    (pitch height stride : ℕ)
    → pitch ≡ 4 * stride
    → 16 ≤ height
    → (pitch * height - pitch * 16) / 4 + 16 * stride ≡ height * stride
visible_rows pitch height stride e high =
    let m = more_rows 16 height stride high in
    let words : 4 * stride * height ≡ 4 * (height * stride) = omega arith in
    rw (e, words) (omega arith)

vterm_scroll-Stays :
    (t : Vterm)
    → t.pitch ≡ 4 * stride t
    → t.width ≤ stride t
    → 16 ≤ t.height
    → Stays t (vterm_scroll t)
unfolding vterm_scroll
vterm_scroll-Stays t words fits high =
    let visible = t.pitch * t.height - t.pitch * 16 in
    let rows = visible_rows t.pitch t.height (stride t) words high in
    record {
      same_pitch = refl;
      same_width = refl;
      same_height = refl;
      outside = λ k h.
          fill_rows-Within 16 (stride t) t.width (visible / 4) t.term_color
            (moved_up (t.pitch * 16) visible t.framebuffer) 0 (screen t) fits (omega arith)
            (omega arith) k (inr h)
          ∙ rw (le→ltb k (visible / 4) (omega arith)) refl;
    }

new_line_lem :
    (t : Vterm)
    → IsVterm t
    → IsVterm (new_line t) × Stays t (new_line t) × ((new_line t).cursor_x ≡ 0)
unfolding new_line vterm_scroll
new_line_lem t v =
    let t1 : Vterm = record t { cursor_x = 0; cursor_y = t.cursor_y + 16 } in
    let line = v.line in
    elim (Bool-cases (ltb t.height (t.cursor_y + 16 + 16))) [
      | inl below ↦ rw below (
        record {
          words = v.words;
          fits = v.fits;
          wide = v.wide;
          high = v.high;
          column = omega arith;
          line = omega arith;
        },
        (let s = vterm_scroll-Stays t1 v.words v.fits v.high in
            record {
              same_pitch = refl;
              same_width = refl;
              same_height = refl;
              outside = s.outside;
            }),
        refl,
      )
      | inr above ↦ rw above (
        record {
          words = v.words;
          fits = v.fits;
          wide = v.wide;
          high = v.high;
          column = omega arith;
          line = ltb-false t.height (t.cursor_y + 16 + 16) above;
        },
        record { same_pitch = refl; same_width = refl; same_height = refl; outside = λ k h. refl },
        refl,
      )
    ]

draw_glyph_lem :
    (font : ℕ → ℕ) (c : ℕ) (t : Vterm)
    → IsVterm t
    → t.cursor_x + 8 ≤ t.width
    → IsVterm (draw_glyph font c t) × Stays t (draw_glyph font c t)
unfolding draw_glyph
draw_glyph_lem font c t v room =
    let rows = rows_fit t.cursor_y t.height (stride t) v.line in
    let fits = v.fits in
    let start = t.cursor_y * stride t + t.cursor_x in
    (
      record {
        words = v.words;
        fits = v.fits;
        wide = v.wide;
        high = v.high;
        column = room;
        line = v.line;
      },
      record {
        same_pitch = refl;
        same_width = refl;
        same_height = refl;
        outside = λ k h.
            draw_rows-Within font 16 (c % 256 * 16) (stride t) start t.fg_color t.framebuffer 0
              (screen t) (omega arith) (omega arith) k (inr h);
      },
    )

vterm_putc_lem :
    (font : ℕ → ℕ) (c : ℕ) (t : Vterm)
    → IsVterm t
    → IsVterm (vterm_putc font c t) × Stays t (vterm_putc font c t)
unfolding vterm_putc
vterm_putc_lem font c t v = elim (Bool-cases (c == 10)) [
  | inl newline ↦ let (v', s', column) = new_line_lem t v in rw newline (v', s')
  | inr other ↦ rw other (elim (Bool-cases (ltb t.width (t.cursor_x + 8))) [
    | inl past ↦
        let (v', s', column) = new_line_lem t v in
        let wide = v.wide in
        let (v'', s'') =
          draw_glyph_lem font c (new_line t) v' (rw (column, s'.same_width) (omega arith)) in
        rw past (v'', Stays-trans t (new_line t) (draw_glyph font c (new_line t)) s' s'')
    | inr room ↦ rw room (draw_glyph_lem font c t v (ltb-false t.width (t.cursor_x + 8) room))
  ])
]

-- If the screen has room for a character and the cursor is on it, this is so after vterm_print of any
-- string, and no word behind the last row of the screen is written.
pub vterm_print-IsVterm :
    (font : ℕ → ℕ) (str : List ℕ) (t : Vterm)
    → IsVterm t
    → IsVterm (vterm_print font str t) × Stays t (vterm_print font str t)
unfolding vterm_print
vterm_print-IsVterm font [] t v = (v, Stays-refl t)
vterm_print-IsVterm font (c ∷ str) t v =
    let (v', s') = vterm_putc_lem font c t v in
    let (v'', s'') = vterm_print-IsVterm font str (vterm_putc font c t) v' in
    (v'', Stays-trans t (vterm_putc font c t) (vterm_print font str (vterm_putc font c t)) s' s'')
