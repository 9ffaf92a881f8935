-- ===== src/Klibc/Heap/Alloc.antt =====
-- kheap_alloc on a well-formed heap: the walk to the first block that fits.
use goshkik_os.Prelude.Memory.{Ptr}
use goshkik_os.Prelude.Run.{done}
use goshkik_os.Klibc.Heap.{Header, Heap, load, fit, last, scan}
use goshkik_os.Klibc.Heap.Blocks.{Block, after, Tiles, span}
use goshkik_os.Prelude.{
  ℕ, zero, suc, ◌+◌, ◌^◌, ◌≤◌, ◌<◌, ◌≡◌, refl, ap, ◌∙◌, ◌⊎◌, inl, inr, Bool, true, false, ◌&&◌,
  ◌||◌, some, List, [], ◌∷◌, ◌++◌, arith, leb, leb→le, ne→==, Bool-cases, length,
}

-- The list of the heap consists of these blocks, one behind the other without a gap, and the last ends at
-- `e`. Nothing is asked of heap_current, which init_kheap leaves at the start of the first block.
pub record IsHeap (h : Heap) (bs : List Block) (e : ℕ) : Type 0 where
  pub tiles : Tiles h.headers h.free_list bs e
  pub bound : e < 2 ^ 64

pub load-ok : (h : Heap) (p : Ptr) (b : Header) → 0 < p → h.headers p ≡ some b → load p h ≡ done b h
unfolding load
load-ok h p b pos e = rw (ne→== p 0 (omega arith), e)

-- a free block for n bytes
abbrev pub suits : ℕ → Block → Bool
suits n b = b.free && leb n b.size

abbrev pub any_suits : ℕ → List Block → Bool
any_suits n [] = false
any_suits n (b ∷ bs) = suits n b || any_suits n bs

-- the walk stops at the first of the blocks after `us`, which is free and large enough
abbrev pub Fits : ℕ → ℕ → ℕ → Heap → List Block → Type 0
Fits f n a h bs =
    (us : List Block) × (b : Block) × (vs : List Block) × (bs ≡ us ++ b ∷ vs)
    × (b.free ≡ true)
    × (n ≤ b.size)
    × (scan f n a h ≡ done (fit (a + span us)) h)

-- the walk stops at the last block, since none is large enough
abbrev pub Ends : ℕ → ℕ → ℕ → Heap → List Block → Type 0
Ends f n a h bs =
    (us : List Block) × (b : Block) × (bs ≡ us ++ b ∷ [])
    × (any_suits n bs ≡ false)
    × (scan f n a h ≡ done (last (a + span us)) h)

scan_step :
    (f n a : ℕ) (h : Heap) (b c : Block) (bs : List Block) (e : ℕ)
    → Tiles h.headers a (b ∷ c ∷ bs) e
    → suits n b ≡ false
    → scan (suc f) n a h ≡ scan f n (after a b) h
unfolding scan
scan_step f n a h b c bs e (p, eq, t) s =
    rw (ne→== a 0 (omega arith), load-ok h a _ p eq, s, ne→== (after a b) 0 (omega arith))

scan_here :
    (f n a : ℕ) (h : Heap) (b : Block) (bs : List Block) (e : ℕ)
    → Tiles h.headers a (b ∷ bs) e
    → suits n b ≡ true
    → scan (suc f) n a h ≡ done (fit a) h
unfolding scan
scan_here f n a h b bs e (p, eq, t) s = rw (ne→== a 0 (omega arith), load-ok h a _ p eq, s)

scan_end :
    (f n a : ℕ) (h : Heap) (b : Block) (e : ℕ)
    → Tiles h.headers a (b ∷ []) e
    → suits n b ≡ false
    → scan (suc f) n a h ≡ done (last a) h
unfolding scan
scan_end f n a h b e (p, eq, t) s = rw (ne→== a 0 (omega arith), load-ok h a _ p eq, s)

and_parts : (x y : Bool) → (x && y) ≡ true → (x ≡ true) × (y ≡ true)
and_parts x y h = ground arith

pub scan-stops :
    (f n a : ℕ) (h : Heap) (b : Block) (bs : List Block) (e : ℕ)
    → Tiles h.headers a (b ∷ bs) e
    → length bs < f
    → Fits f n a h (b ∷ bs) ⊎ Ends f n a h (b ∷ bs)
scan-stops zero n a h b bs e t l = absurd (omega arith)
scan-stops (suc f) n a h b [] e t l = elim (Bool-cases (suits n b)) [
  | inl y ↦
      let (free, big) = and_parts b.free (leb n b.size) y in
      inl (
        [],
        b,
        [],
        refl,
        free,
        leb→le _ _ big,
        scan_here f n a h b [] e t y ∙ ap (λ m. done (fit m) h) (omega arith),
      )
  | inr n' ↦
      inr (
        [],
        b,
        refl,
        rw n' refl,
        scan_end f n a h b e t n' ∙ ap (λ m. done (last m) h) (omega arith),
      )
]
scan-stops (suc f) n a h b (c ∷ bs) e t l = elim (Bool-cases (suits n b)) [
  | inl y ↦
      let (free, big) = and_parts b.free (leb n b.size) y in
      inl (
        [],
        b,
        c ∷ bs,
        refl,
        free,
        leb→le _ _ big,
        scan_here f n a h b (c ∷ bs) e t y ∙ ap (λ m. done (fit m) h) (omega arith),
      )
  | inr n' ↦ elim (scan-stops f n (after a b) h c bs e t.2 (omega arith)) [
    | inl (us, d, vs, eq, free, big, run) ↦ inl (
      b ∷ us,
      d,
      vs,
      ap (◌∷◌ b) eq,
      free,
      big,
      scan_step f n a h b c bs e t n' ∙ run ∙ ap (λ m. done (fit m) h) (omega arith),
    )
    | inr (us, d, eq, poor, run) ↦ inr (
      b ∷ us,
      d,
      ap (◌∷◌ b) eq,
      rw n' poor,
      scan_step f n a h b c bs e t n' ∙ run ∙ ap (λ m. done (last m) h) (omega arith),
    )
  ]
]
