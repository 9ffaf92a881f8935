-- ===== src/Vterm/Tests.antt =====
-- A screen of 2 rows of 3 characters.
use goshkik_os.Vterm.{
  Vterm, draw_bits, draw_rows, new_line, draw_glyph, vterm_scroll, vterm_putc, vterm_print,
}
use goshkik_os.Vterm.Bounds.{IsVterm, Stays, stride, vterm_print-IsVterm}
use goshkik_os.Vterm.Scroll.{vterm_scroll_rows}
use goshkik_os.Prelude.{ℕ, ◌+◌, ◌-◌, ◌*◌, ◌<◌, ◌≡◌, refl, [], ◌∷◌, arith}

abbrev blank : Vterm
blank = record {
  framebuffer = λ k. 7;
  pitch = 100;
  width = 24;
  height = 32;
  cursor_x = 0;
  cursor_y = 0;
  term_color = 0;
  fg_color = 9;
}

-- every glyph is one bar on the left
abbrev bars : ℕ → ℕ
bars row = 0x80

blank-IsVterm : IsVterm blank
blank-IsVterm = record {
  words = refl;
  fits = omega arith;
  wide = omega arith;
  high = omega arith;
  column = omega arith;
  line = omega arith;
}

-- the second character starts at column 8
second_bar : (vterm_print bars (65 ∷ 66 ∷ []) blank).framebuffer 8 ≡ 9
unfolding vterm_print vterm_putc new_line draw_glyph draw_rows draw_bits
second_bar = refl

vterm_print-IsVterm_example :
    IsVterm (vterm_print bars (65 ∷ 10 ∷ 10 ∷ 66 ∷ []) blank)
    × Stays blank (vterm_print bars (65 ∷ 10 ∷ 10 ∷ 66 ∷ []) blank)
vterm_print-IsVterm_example = vterm_print-IsVterm bars (65 ∷ 10 ∷ 10 ∷ 66 ∷ []) blank blank-IsVterm

vterm_scroll_rows_example :
    ((y x : ℕ)
      → y + 16 < 32
      → x < stride blank
      → (vterm_scroll blank).framebuffer (y * stride blank + x)
        ≡ blank.framebuffer ((y + 16) * stride blank + x))
    × ((y x : ℕ)
        → y < 16
        → x < 24
        → (vterm_scroll blank).framebuffer ((32 - 16 + y) * stride blank + x) ≡ 0)
vterm_scroll_rows_example = vterm_scroll_rows blank blank-IsVterm
