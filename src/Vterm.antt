-- ===== src/Vterm.antt =====
-- src/vterm/vterm.c: text on the frame buffer. A pixel is a 32-bit word, named by its index from the start
-- of the frame buffer, and the pitch is a multiple of 4 bytes.
pub mod Loops
pub mod Bounds
pub mod Scroll
mod Tests
use goshkik_os.Prelude.{
  ℕ, zero, suc, ◌+◌, ◌-◌, ◌*◌, ◌/◌, ◌%◌, ◌^◌, ◌≤◌, ◌<◌, bit_and, bit_or, bit_xor, ◌≡◌, refl, sym,
  ap, ap₂, ◌∙◌, fun_ext, subst, subst₂, ◌≢◌, ◌↔◌, ◌⊎◌, inl, inr, Bool, true, false, not, ◌&&◌, ◌||◌,
  Option, none, some, List, [], ◌∷◌, ◌++◌, map, arith, ltb, leb, ◌==◌, if◌then◌else◌, ltb→lt,
  lt→ltb, le→ltb, ltb-false, leb→le, leb-false, leb-gt, leb-true, ==_iff, ==_refl, ne→==, ==_false,
  Bool-cases, Option-cases, length, get_elem?, get_or, set, replicate, rev_onto, length-append,
  length-set, length-replicate, get_or-replicate, get_or-set, get_elem?-get_or,
}

abbrev pub Pixels : Type 0
Pixels = ℕ → ℕ

-- the statics of vterm.c
pub record Vterm : Type 0 where
  pub framebuffer : Pixels
  pub pitch : ℕ
  pub width : ℕ
  pub height : ℕ
  pub cursor_x : ℕ
  pub cursor_y : ℕ
  pub term_color : ℕ
  pub fg_color : ℕ

-- `COLOR_WHITE` and `COLOR_BLACK`
abbrev pub color_white : ℕ
color_white = 0xFFFFFF

abbrev pub color_black : ℕ
color_black = 0x000000

-- `struct limine_framebuffer`, less what vterm.c does not read
pub record LimineFramebuffer : Type 0 where
  pub address : Pixels
  pub pitch : ℕ
  pub width : ℕ
  pub height : ℕ

abbrev pub put : Pixels → ℕ → ℕ → Pixels
put pixels i color k = if i == k then color else pixels k

abbrev pub vterm_set_fg_color : ℕ → Vterm → Vterm
vterm_set_fg_color color t = record t { fg_color = color }

abbrev pub vterm_set_term_color : ℕ → Vterm → Vterm
vterm_set_term_color color t = record t { term_color = color }

-- `for (x = …; x < …; ++x)` over n pixels from index i on
pub fill_row : ℕ → ℕ → ℕ → Pixels → Pixels
fill_row zero i color pixels = pixels
fill_row (suc n) i color pixels = fill_row n (suc i) color (put pixels i color)

-- n rows of `width` pixels, `stride` apart, from index i on
pub fill_rows : ℕ → ℕ → ℕ → ℕ → ℕ → Pixels → Pixels
fill_rows zero stride width i color pixels = pixels
fill_rows (suc n) stride width i color pixels =
    fill_rows n stride width (i + stride) color (fill_row width i color pixels)

unfoldable pub vterm_clear : ℕ → Vterm → Vterm
vterm_clear color t = record t {
  framebuffer = fill_rows t.height (t.pitch / 4) t.width 0 color t.framebuffer;
  cursor_x = 0;
  cursor_y = 0;
}

unfoldable pub vterm_init : LimineFramebuffer → Vterm → Vterm
vterm_init fb t =
    let t = record t {
      framebuffer = fb.address;
      pitch = fb.pitch;
      width = fb.width;
      height = fb.height;
    } in
    let t = vterm_set_term_color color_black (vterm_set_fg_color color_white t) in
    vterm_clear t.term_color t

-- the memmove of vterm_scroll, in words
abbrev pub moved_up : ℕ → ℕ → Pixels → Pixels
moved_up row_size visible_size pixels k =
    if ltb k (visible_size / 4) then pixels (k + row_size / 4) else pixels k

-- The height is 16 or more, so that no difference goes below 0.
pub vterm_scroll : Vterm → Vterm
vterm_scroll t =
    let row_size = t.pitch * 16 in
    let visible_size = t.pitch * t.height - row_size in
    record t {
      framebuffer =
          fill_rows 16 (t.pitch / 4) t.width (visible_size / 4) t.term_color
            (moved_up row_size visible_size t.framebuffer);
      cursor_y = t.cursor_y - 16;
    }

-- the bits of a row of a glyph that are left, the highest first, from index i on
pub draw_bits : ℕ → ℕ → ℕ → ℕ → Pixels → Pixels
draw_bits zero row i color pixels = pixels
draw_bits (suc n) row i color pixels =
    draw_bits n row (suc i) color (if row / 2 ^ n % 2 == 0 then pixels else put pixels i color)

-- n rows of a glyph from row y on; `default_font` is font.c
pub draw_rows : (ℕ → ℕ) → ℕ → ℕ → ℕ → ℕ → ℕ → Pixels → Pixels
draw_rows default_font zero glyph stride i color pixels = pixels
draw_rows default_font (suc n) glyph stride i color pixels =
    draw_rows default_font n (suc glyph) stride (i + stride) color
      (draw_bits 8 (default_font glyph) i color pixels)

-- the start of a new line, with a scroll below the last one
pub new_line : Vterm → Vterm
new_line t =
    let t = record t { cursor_x = 0; cursor_y = t.cursor_y + 16 } in
    if ltb t.height (t.cursor_y + 16) then vterm_scroll t else t

pub draw_glyph : (ℕ → ℕ) → ℕ → Vterm → Vterm
draw_glyph default_font c t = record t {
  framebuffer =
      draw_rows default_font 16 (c % 256 * 16) (t.pitch / 4)
        (t.cursor_y * (t.pitch / 4) + t.cursor_x) t.fg_color t.framebuffer;
  cursor_x = t.cursor_x + 8;
}

pub vterm_putc : (ℕ → ℕ) → ℕ → Vterm → Vterm
vterm_putc default_font c t =
    if c == 10
    then new_line t
    else draw_glyph default_font c (if ltb t.width (t.cursor_x + 8) then new_line t else t)

-- a string without its NUL
pub vterm_print : (ℕ → ℕ) → List ℕ → Vterm → Vterm
vterm_print default_font [] t = t
vterm_print default_font (c ∷ str) t = vterm_print default_font str (vterm_putc default_font c t)
