-- ===== src/Vterm/Scroll.antt =====
-- What vterm_scroll of vterm.c shows.
use goshkik_os.Vterm.{Pixels, Vterm, put, fill_row, fill_rows, moved_up, vterm_scroll}
use goshkik_os.Vterm.Loops.{fill_row-Within, fill_rows-Within}
use goshkik_os.Vterm.Bounds.{stride, IsVterm, more_rows, visible_rows}
use goshkik_os.Prelude.{
  ℕ, zero, suc, ◌+◌, ◌-◌, ◌*◌, ◌/◌, ◌≤◌, ◌<◌, ◌≡◌, refl, sym, ap, ◌∙◌, inl, inr, arith, ◌==◌,
  lt→ltb, ==_iff, ==_false, Bool-cases,
}

fill_row_inside :
    (n i color : ℕ) (pixels : Pixels) (k : ℕ)
    → i ≤ k
    → k < i + n
    → fill_row n i color pixels k ≡ color
unfolding fill_row
fill_row_inside zero i color pixels k h h' = absurd (omega arith)
fill_row_inside (suc n) i color pixels k h h' = elim (Bool-cases (i == k)) [
  | inl same ↦
      let e = (==_iff i k).0 same in
      fill_row-Within n (suc i) color (put pixels i color) (suc i) (suc i + n) (omega arith)
        (omega arith) k (inl (omega arith))
      ∙ rw same refl
  | inr other ↦
      let ne = ==_false i k other in
      fill_row_inside n (suc i) color (put pixels i color) k (omega arith) (omega arith)
]

fill_rows_inside :
    (n stride width i color : ℕ) (pixels : Pixels) (y x : ℕ)
    → width ≤ stride
    → y < n
    → x < width
    → fill_rows n stride width i color pixels (i + y * stride + x) ≡ color
unfolding fill_rows
fill_rows_inside zero stride width i color pixels y x fits h h' = absurd (omega arith)
fill_rows_inside (suc n) stride width i color pixels zero x fits h h' =
    fill_rows-Within n stride width (i + stride) color (fill_row width i color pixels) (i + stride)
      (i + stride + n * stride) fits (omega arith) (omega arith) (i + 0 * stride + x)
      (inl (omega arith))
    ∙ fill_row_inside width i color pixels (i + 0 * stride + x) (omega arith) (omega arith)
fill_rows_inside (suc n) stride width i color pixels (suc y) x fits h h' =
    let one : i + suc y * stride + x ≡ i + stride + y * stride + x = omega arith in
    rw one (
      fill_rows_inside n stride width (i + stride) color (fill_row width i color pixels) y x fits
        (omega arith) h')

-- On a screen with room for a character, vterm_scroll moves every row but the first 16 up by 16 rows, and
-- gives the last 16 rows the color of the terminal.
pub vterm_scroll_rows :
    (t : Vterm)
    → IsVterm t
    → ((y x : ℕ)
        → y + 16 < t.height
        → x < stride t
        → (vterm_scroll t).framebuffer (y * stride t + x) ≡ t.framebuffer ((y + 16) * stride t + x))
      × ((y x : ℕ)
          → y < 16
          → x < t.width
          → (vterm_scroll t).framebuffer ((t.height - 16 + y) * stride t + x) ≡ t.term_color)
unfolding vterm_scroll
vterm_scroll_rows t v =
    let visible = t.pitch * t.height - t.pitch * 16 in
    let rows = visible_rows t.pitch t.height (stride t) v.words v.high in
    let fits = v.fits in
    let high = v.high in
    let row : t.pitch * 16 / 4 ≡ 16 * stride t = let w = v.words in omega arith in
    (
      λ y x h h'.
          let below = more_rows (y + 17) t.height (stride t) (omega arith) in
          let split : (y + 17) * stride t ≡ y * stride t + 17 * stride t = omega arith in
          let split' : (y + 16) * stride t ≡ y * stride t + 16 * stride t = omega arith in
          let k = y * stride t + x in
          fill_rows-Within 16 (stride t) t.width (visible / 4) t.term_color
            (moved_up (t.pitch * 16) visible t.framebuffer) (visible / 4)
            (visible / 4 + 16 * stride t) fits (omega arith) (omega arith) k (inl (omega arith))
          ∙ rw (lt→ltb k (visible / 4) (omega arith)) (ap t.framebuffer (omega arith)),
      λ y x h h'.
          let start : (t.height - 16 + y) * stride t + x ≡ visible / 4 + y * stride t + x =
            let m : (t.height - 16) * stride t + 16 * stride t ≡ t.height * stride t =
              spare t.height (stride t) high in
            let split : (t.height - 16 + y) * stride t ≡ (t.height - 16) * stride t + y * stride t =
              omega arith in
            omega arith in
          rw start (
            fill_rows_inside 16 (stride t) t.width (visible / 4) t.term_color
              (moved_up (t.pitch * 16) visible t.framebuffer) y x fits h h'),
    )
  where
    pair : (a s : ℕ) → (a + 16) * s ≡ a * s + 16 * s
    pair a s = omega arith

    spare : (height s : ℕ) → 16 ≤ height → (height - 16) * s + 16 * s ≡ height * s
    spare height s h = sym (pair (height - 16) s) ∙ ap (λ n. n * s) (omega arith)
