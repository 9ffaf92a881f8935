-- ===== src/Klibc/Heap/Free.antt =====
-- kheap_free takes one block from those in use, and joins neighbours that are free.
use goshkik_os.Klibc.Heap.Coalesce.{coalesce-Joined}
use goshkik_os.Prelude.Memory.{update, update_same, update_other}
use goshkik_os.Prelude.Run.{Returns}
use goshkik_os.Klibc.Heap.{Heap, store, coalesce, kheap_free}
use goshkik_os.Klibc.Heap.Blocks.{
  Block, link, after, Tiles, span, used, Tiles-le, used-append, Tiles-at, Tiles-replace,
  Tiles-SameFrom,
}
use goshkik_os.Klibc.Heap.Alloc.{IsHeap, load-ok}
use goshkik_os.Prelude.{
  ℕ, suc, ◌+◌, ◌-◌, ◌%◌, ◌^◌, ◌<◌, ◌≡◌, refl, sym, ap, ap₂, ◌∙◌, subst, inl, inr, true, false, some,
  List, [], ◌∷◌, ◌++◌, arith, ne→==, Bool-cases, length,
}

-- a block in use is one of the blocks
split_used :
    (a : ℕ) (bs : List Block) (ls : List (ℕ × ℕ)) (x s : ℕ) (rs : List (ℕ × ℕ))
    → used a bs ≡ ls ++ (x, s) ∷ rs
    → (us : List Block) × (b : Block) × (vs : List Block) × (bs ≡ us ++ b ∷ vs)
      × (b.free ≡ false)
      × (a + span us ≡ x)
      × (b.size ≡ s)
      × (used a us ≡ ls)
      × (used (after x b) vs ≡ rs)
split_used a [] [] x s rs eq = cc
split_used a [] (l ∷ ls) x s rs eq = cc
split_used a (b ∷ bs) [] x s rs eq = elim (Bool-cases b.free) [
  | inl y ↦
      let (us, c, vs, e1, e2, e3, e4, e5, e6) = split_used (after a b) bs [] x s rs (rw y at eq) in
      (b ∷ us, c, vs, ap (◌∷◌ b) e1, e2, omega arith, e4, rw y e5, e6)
  | inr n ↦
      let eq' : (a, b.size) ∷ used (after a b) bs ≡ (x, s) ∷ rs = rw n at eq in
      let here : a ≡ x = ground arith in
      (
        [],
        b,
        bs,
        refl,
        n,
        omega arith,
        ground arith,
        refl,
        subst (λ m. used (after m b) bs ≡ rs) here (cc),
      )
]
split_used a (b ∷ bs) (l ∷ ls) x s rs eq = elim (Bool-cases b.free) [
  | inl y ↦
      let (us, c, vs, e1, e2, e3, e4, e5, e6) =
        split_used (after a b) bs (l ∷ ls) x s rs (rw y at eq) in
      (b ∷ us, c, vs, ap (◌∷◌ b) e1, e2, omega arith, e4, rw y e5, e6)
  | inr n ↦
      let eq' : (a, b.size) ∷ used (after a b) bs ≡ l ∷ (ls ++ (x, s) ∷ rs) = rw n at eq in
      let (us, c, vs, e1, e2, e3, e4, e5, e6) = split_used (after a b) bs ls x s rs (cc) in
      let first : (a, b.size) ≡ l = cc in
      (b ∷ us, c, vs, ap (◌∷◌ b) e1, e2, omega arith, e4, rw n (ap₂ ◌∷◌ first e5), e6)
]

-- the first block of a list that is not empty
uncons :
    (us : List Block) (c : Block) (vs : List Block)
    → (d : Block) × (ds : List Block) × (us ++ c ∷ vs ≡ d ∷ ds)
uncons [] c vs = (c, vs, refl)
uncons (u ∷ us) c vs = (u, us ++ c ∷ vs, refl)

length-replaced :
    (us : List Block) (c d : Block) (vs : List Block)
    → length (us ++ c ∷ vs) ≡ length (us ++ d ∷ vs)
length-replaced [] c d vs = refl
length-replaced (u ∷ us) c d vs = ap suc (length-replaced us c d vs)

-- the heap with the block at x marked as free
abbrev marked : Heap → ℕ → Block → List Block → Heap
marked h x c vs = record h {
  headers =
      update h.headers x (some (record { size = c.size; free = true; next = link vs (after x c) }));
}

marked-Tiles :
    (h : Heap) (us : List Block) (c : Block) (vs : List Block) (x e : ℕ)
    → Tiles h.headers h.free_list (us ++ c ∷ vs) e
    → h.free_list + span us ≡ x
    → Tiles
        (marked h x c vs).headers
        h.free_list
        (us ++ record { size = c.size; free = true } ∷ vs)
        e
marked-Tiles h us c vs x e t at' =
    let hd' = (marked h x c vs).headers in
    let (pos, eq, rest) =
      subst (λ m. Tiles h.headers m (c ∷ vs) e) at' (Tiles-at h.headers h.free_list us c vs e t) in
    Tiles-replace h.headers hd' h.free_list us c vs (record { size = c.size; free = true }) vs e e t
      (λ y l. update_other h.headers x _ y (omega arith))
      (subst (λ m. Tiles hd' m (record { size = c.size; free = true } ∷ vs) e) (sym at')
        (
          pos,
          update_same h.headers x _,
          Tiles-SameFrom h.headers hd' (after x c) vs e
              (λ y l. update_other h.headers x _ y (omega arith)) rest,
        ))

kheap_free_run :
    (f : ℕ) (h : Heap) (c : Block) (vs : List Block) (x : ℕ)
    → 0 < x
    → x < 2 ^ 64
    → h.headers x ≡ some (record { size = c.size; free = c.free; next = link vs (after x c) })
    → kheap_free f (x + 24) h ≡ coalesce f h.free_list (marked h x c vs)
unfolding kheap_free store
kheap_free_run f h c vs x pos bound eq =
    let addr : (x + 24 + 2 ^ 64 - 24) % 2 ^ 64 ≡ x = omega arith in
    rw (ne→== (x + 24) 0 (omega arith), addr, load-ok h x _ pos eq)

-- kheap_free of a block in use returns, on a well-formed heap with fuel for its blocks: the heap is
-- well-formed with the same end, that block is no longer in use, and all others in use are as before,
-- whatever free blocks were joined.
pub kheap_free-IsHeap :
    (f : ℕ) (h : Heap) (b : Block) (bs : List Block) (e : ℕ) (ls : List (ℕ × ℕ)) (x s : ℕ)
    (rs : List (ℕ × ℕ))
    → IsHeap h (b ∷ bs) e
    → suc (length bs) < f
    → used h.free_list (b ∷ bs) ≡ ls ++ (x, s) ∷ rs
    → Returns (kheap_free f (x + 24) h) (λ _ h'.
      (bs' : List Block) × IsHeap h' bs' e
      × (used h'.free_list bs' ≡ ls ++ rs)
      × (h'.heap_current ≡ h.heap_current))
kheap_free-IsHeap f h b bs e ls x s rs ok fuel uses =
    let (us, c, vs, eq, busy, at', size, before, behind) =
      split_used h.free_list (b ∷ bs) ls x s rs uses in
    let c' : Block = record { size = c.size; free = true } in
    let tiles = subst (λ l. Tiles h.headers h.free_list l e) eq ok.tiles in
    let (pos, hd, rest) =
      subst (λ m. Tiles h.headers m (c ∷ vs) e) at'
        (Tiles-at h.headers h.free_list us c vs e tiles) in
    let end = Tiles-le h.headers (after x c) vs e rest in
    let h1 = marked h x c vs in
    let (d, ds, eq') = uncons us c' vs in
    let long : length ds ≡ length bs =
      omega (arith, ap length eq, ap length eq', length-replaced us c c' vs) in
    let tiles1 =
      subst (λ l. Tiles h1.headers h.free_list l e) eq' (marked-Tiles h us c vs x e tiles at') in
    let (u, h', run, (g, gs, below, tiles', uses', shorter, fl, cur)) =
      coalesce-Joined f h1 h.free_list d ds e tiles1 ok.bound (omega arith) in
    (
      u,
      h',
      kheap_free_run f h c vs x pos (omega (arith, ok.bound)) hd ∙ run,
      (
        g ∷ gs,
        record {
          tiles = subst (λ m. Tiles h'.headers m (g ∷ gs) e) (sym fl) tiles';
          bound = ok.bound;
        },
        ap (λ m. used m (g ∷ gs)) fl
            ∙ uses'
            ∙ ap (used h.free_list) (sym eq')
            ∙ used-append h.free_list us (c' ∷ vs)
            ∙ ap₂ ◌++◌ before (ap (λ m. used (after m c) vs) at' ∙ behind),
        cur,
      ),
    )
