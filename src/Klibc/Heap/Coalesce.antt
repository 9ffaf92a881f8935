-- ===== src/Klibc/Heap/Coalesce.antt =====
-- The merging pass of kheap_free over the blocks.
use goshkik_os.Prelude.Memory.{update, update_same, update_other}
use goshkik_os.Prelude.Run.{done, Returns}
use goshkik_os.Klibc.Heap.{Heap, store, coalesce}
use goshkik_os.Klibc.Heap.Blocks.{
  Block, link, after, Tiles, used, Tiles-le, SameBelow, Tiles-SameFrom,
}
use goshkik_os.Klibc.Heap.Alloc.{load-ok}
use goshkik_os.Prelude.{
  ℕ, zero, suc, ◌+◌, ◌%◌, ◌^◌, ◌≤◌, ◌<◌, ◌≡◌, refl, ap, ap₂, ◌∙◌, subst, inl, inr, Bool, true,
  false, ◌&&◌, some, List, [], ◌∷◌, arith, ne→==, Bool-cases, length,
}

-- the same blocks are in use from `a` on, and nothing changed below
abbrev pub Joined : ℕ → Block → List Block → ℕ → Heap → Heap → Type 0
Joined a b bs e h h' =
    (c : Block) × (cs : List Block) × SameBelow a h.headers h'.headers
    × Tiles h'.headers a (c ∷ cs) e
    × (used a (c ∷ cs) ≡ used a (b ∷ bs))
    × (length cs ≤ length bs)
    × (h'.free_list ≡ h.free_list)
    × (h'.heap_current ≡ h.heap_current)

coalesce_null : (f : ℕ) (h : Heap) → 0 < f → coalesce f 0 h ≡ done tt h
unfolding coalesce
coalesce_null zero h pos = absurd (omega arith)
coalesce_null (suc f) h pos = refl

-- the heap after a block has been joined with the next
abbrev joined : Heap → ℕ → Block → Block → List Block → Heap
joined h a b c cs = record h {
  headers = update h.headers a (
      some (record {
        size = (b.size + (24 + c.size)) % 2 ^ 64;
        free = b.free;
        next = link cs (after (after a b) c);
      }));
}

module _ (f : ℕ) (h : Heap) (a : ℕ) (b c : Block) (cs : List Block) (e : ℕ)
    (t : Tiles h.headers a (b ∷ c ∷ cs) e) where
  coalesce_moves : (b.free && c.free) ≡ false → coalesce (suc f) a h ≡ coalesce f (after a b) h
  unfolding coalesce
  coalesce_moves kept = elim (Bool-cases b.free) [
    | inl y ↦ rw (
      ne→== a 0 (omega (arith, t.0)),
      load-ok h a _ t.0 t.1,
      y,
      ne→== (after a b) 0 (omega arith),
      load-ok h (after a b) _ t.2.0 t.2.1,
      (rw y at kept),
    )
    | inr n ↦ rw (ne→== a 0 (omega (arith, t.0)), load-ok h a _ t.0 t.1, n)
  ]

  coalesce_joins :
      b.free ≡ true → c.free ≡ true → coalesce (suc f) a h ≡ coalesce f a (joined h a b c cs)
  unfolding coalesce store
  coalesce_joins y y' = rw (
    ne→== a 0 (omega (arith, t.0)),
    load-ok h a _ t.0 t.1,
    y,
    ne→== (after a b) 0 (omega arith),
    load-ok h (after a b) _ t.2.0 t.2.1,
    y',
  )

and_parts : (x y : Bool) → (x && y) ≡ true → (x ≡ true) × (y ≡ true)
and_parts x y h = ground arith

-- the blocks after the join
joined-Tiles :
    (h : Heap) (a : ℕ) (b c : Block) (cs : List Block) (e : ℕ)
    → Tiles h.headers a (b ∷ c ∷ cs) e
    → e < 2 ^ 64
    → Tiles
        (joined h a b c cs).headers
        a
        (record { size = b.size + 24 + c.size; free = b.free } ∷ cs)
        e
joined-Tiles h a b c cs e (pos, eq, (pos', eq', t)) bound =
    let end : after (after a b) c ≡ a + 24 + (b.size + 24 + c.size) = omega arith in
    let q = Tiles-le h.headers (after (after a b) c) cs e t in
    (
      pos,
      update_same h.headers a _
          ∙ ap₂ (λ z m. some (record { size = z; free = b.free; next = link cs m })) (omega arith)
              end,
      subst (λ m. Tiles (joined h a b c cs).headers m cs e) end
          (Tiles-SameFrom h.headers _ (after (after a b) c) cs e
            (λ x l. update_other h.headers a _ x (omega arith)) t),
    )

used-joined :
    (a : ℕ) (b c : Block) (cs : List Block)
    → b.free ≡ true
    → c.free ≡ true
    → used a (record { size = b.size + 24 + c.size; free = b.free } ∷ cs) ≡ used a (b ∷ c ∷ cs)
used-joined a b c cs y y' = rw (y, y') (ap (λ m. used m cs) (omega arith))

used-cons :
    (a : ℕ) (b : Block) (xs ys : List Block)
    → used (after a b) xs ≡ used (after a b) ys
    → used a (b ∷ xs) ≡ used a (b ∷ ys)
used-cons a b xs ys eq = elim (Bool-cases b.free) [
  | inl y ↦ rw y eq
  | inr n ↦ rw n (ap (◌∷◌ (a, b.size)) eq)
]

coalesce_end :
    (f : ℕ) (h : Heap) (a : ℕ) (b : Block) (e : ℕ)
    → Tiles h.headers a (b ∷ []) e
    → 0 < f
    → coalesce (suc f) a h ≡ done tt h
unfolding coalesce
coalesce_end f h a b e t l = elim (Bool-cases b.free) [
  | inl y ↦ rw (ne→== a 0 (omega (arith, t.0)), load-ok h a _ t.0 t.1, y, coalesce_null f h l)
  | inr n ↦ rw (ne→== a 0 (omega (arith, t.0)), load-ok h a _ t.0 t.1, n, coalesce_null f h l)
]

-- The loop of kheap_free keeps the blocks in use, each at its place.
pub coalesce-Joined :
    (f : ℕ) (h : Heap) (a : ℕ) (b : Block) (bs : List Block) (e : ℕ)
    → Tiles h.headers a (b ∷ bs) e
    → e < 2 ^ 64
    → suc (length bs) < f
    → Returns (coalesce f a h) (λ _ h'. Joined a b bs e h h')
unfolding coalesce
coalesce-Joined zero h a b bs e t bound l = absurd (omega arith)
coalesce-Joined (suc f) h a b [] e t bound l = (
  tt,
  h,
  coalesce_end f h a b e t (omega arith),
  (b, [], λ x l. refl, t, refl, omega arith, refl, refl),
)
coalesce-Joined (suc f) h a b (c ∷ cs) e t bound l = elim (Bool-cases (b.free && c.free)) [
  | inl both ↦
      let (y, y') = and_parts b.free c.free both in
      let d : Block = record { size = b.size + 24 + c.size; free = b.free } in
      let (u, h', run, (c', cs', below, tiles, uses, shorter, fl, cur)) =
        coalesce-Joined f (joined h a b c cs) a d cs e (joined-Tiles h a b c cs e t bound) bound
          (omega arith) in
      (
        u,
        h',
        coalesce_joins f h a b c cs e t y y' ∙ run,
        (
          c',
          cs',
          λ x l. below x l ∙ update_other h.headers a _ x (omega arith),
          tiles,
          uses ∙ used-joined a b c cs y y',
          omega arith,
          fl,
          cur,
        ),
      )
  | inr kept ↦
      let (u, h', run, (c', cs', below, tiles, uses, shorter, fl, cur)) =
        coalesce-Joined f h (after a b) c cs e t.2 bound (omega arith) in
      (
        u,
        h',
        coalesce_moves f h a b c cs e t kept ∙ run,
        (
          b,
          c' ∷ cs',
          λ x l. below x (omega arith),
          (t.0, below a (omega arith) ∙ t.1, tiles),
          used-cons a b (c' ∷ cs') (c ∷ cs) uses,
          omega arith,
          fl,
          cur,
        ),
      )
]
