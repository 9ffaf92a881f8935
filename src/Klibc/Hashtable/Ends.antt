-- ===== src/Klibc/Hashtable/Ends.antt =====
-- The first and the last call on a table: hashtable_init and hashtable_destroy.
use goshkik_os.Klibc.Hashtable.{free_chain, free_buckets, hashtable_init, hashtable_destroy}
use goshkik_os.Klibc.Hashtable.Table.{Links-kept}
use goshkik_os.Prelude.Memory.{Ptr, update, update_other}
use goshkik_os.Prelude.Run.{done, Returns}
use goshkik_os.Prelude.Int.{ℤ, pos, negsuc}
use goshkik_os.Klibc.Hashtable.{Entry, World, slab_free, kfree_key}
use goshkik_os.Klibc.Hashtable.Chain.{Node, first, Links, stands, Distinct, Links-update}
use goshkik_os.Klibc.Hashtable.Keys.{Placed}
use goshkik_os.Klibc.Hashtable.Table.{IsChain, IsTable, load-at}
use goshkik_os.Prelude.{
  rev_onto, ℕ, zero, suc, ◌+◌, ◌%◌, ◌<◌, ◌≡◌, refl, sym, ap, ◌∙◌, subst, ◌≢◌, ◌⊎◌, inl, inr, Bool,
  true, false, ◌&&◌, ◌||◌, Option, none, some, List, [], ◌∷◌, ◌++◌, map, arith, if◌then◌else◌,
  ne→==, Bool-cases, length, get_or, replicate, length-replicate, get_or-replicate,
}

abbrev pub Initialised : World → Bool → Bool → ℕ → ℤ → World → Type 0
Initialised w created array size r w' =
    (((w.cache || created) && array ≡ true)
      × (r ≡ pos 0)
      × IsTable w' (λ j. [])
      × (w'.table.capacity ≡ size)
      × (w'.table.entry_count ≡ 0))
    ⊎ (((w.cache || created) && array ≡ false) × (r ≡ negsuc 0))

-- hashtable_init of a size that is not 0 returns: 0 with the table of the empty map when its allocations
-- succeed, and -1 when one does not.
pub hashtable_init_lem :
    (w : World) (created array : Bool) (size : ℕ)
    → 0 < size
    → Returns (hashtable_init created array size w) (Initialised w created array size)
unfolding hashtable_init
hashtable_init_lem w created array size large = elim (Bool-cases (w.cache || created)) [
  | inl e ↦ elim (Bool-cases array) [
    | inl e' ↦ (
      pos 0,
      record w {
        cache = true;
        table = record { capacity = size; entries = replicate size 0; entry_count = 0 };
      },
      rw (e, e'),
      inl (
        rw (e, e'),
        refl,
        (
          large,
          length-replicate size 0,
          λ j small. (0, (get_or-replicate size j 0 0 small, refl), tt, tt, tt),
        ),
        refl,
        refl,
      ),
    )
    | inr e' ↦ (
      negsuc 0,
      record w { cache = true; table = record w.table { capacity = size; entries = [] } },
      rw (e, e'),
      inr (rw (e, e'), refl),
    )
  ]
  | inr e ↦ (negsuc 0, w, rw (e), inr (rw (e), refl))
]

abbrev pub freed_one : World → Node → World
freed_one w n = record w {
  cells = update w.cells n.at none;
  freed_keys = n.key ∷ w.freed_keys;
  freed_slabs = n.at ∷ w.freed_slabs;
}

-- the world when the nodes have been given back, the first node first
abbrev pub freed : World → List Node → World
freed w [] = w
freed w (n ∷ ns) = freed (freed_one w n) ns

free_chain_lem :
    (fuel : ℕ) (w : World) (prev p : Ptr) (ns : List Node) (out : Ptr)
    → Links w.cells prev p ns 0 out
    → Distinct ns
    → length ns < fuel
    → free_chain fuel p w ≡ done tt (freed w ns)
unfolding free_chain kfree_key slab_free
free_chain_lem zero w prev p ns out l d small = absurd (omega arith)
free_chain_lem (suc f) w prev p [] out (e, e') d small = rw (e)
free_chain_lem (suc f) w prev p (n ∷ ns) out (e, nz, eq, l) d small =
    rw (e, ne→== n.at 0 nz, load-at n.at _ w nz eq)
      (free_chain_lem f _ n.at (first ns 0) ns out
        (Links-update w.cells n.at none n.at (first ns 0) ns 0 out d.0 l) d.1 (omega arith))

add_zero : (j : ℕ) → j + 0 ≡ j
add_zero j = omega arith

zero_add : (i : ℕ) → i ≡ 0 + i
zero_add i = omega arith

add_suc : (j i : ℕ) → j + suc i ≡ suc j + i
add_suc j i = omega arith

-- giving back the nodes of bucket j leaves the entries of the other buckets
freed-kept :
    (cap j : ℕ) (w : World) (prev p : Ptr) (ns : List Node) (out : Ptr)
    → Links w.cells prev p ns 0 out
    → Distinct ns
    → Placed cap j ns
    → (a : Ptr) (e : Entry) → w.cells a ≡ some e
    → e.hash % cap ≢ j
    → (freed w ns).cells a ≡ w.cells a
freed-kept cap j w prev p [] out l d pl a e h ne = refl
freed-kept cap j w prev p (n ∷ ns) out (x, nz, eq, l) d pl a e h ne =
    let here =
      update_other w.cells n.at none a
        (λ z. ne (hash_of (w.cells n.at) (w.cells a) cap _ e (ap w.cells z) eq h ∙ pl.0)) in
    freed-kept cap j (freed_one w n) n.at (first ns 0) ns out
      (Links-update w.cells n.at none n.at (first ns 0) ns 0 out d.0 l) d.1 pl.1 a e (here ∙ h) ne
    ∙ here
  where
    hash_of :
        (o o' : Option Entry) (cap : ℕ) (x e : Entry)
        → o ≡ o'
        → o ≡ some x
        → o' ≡ some e
        → e.hash % cap ≡ x.hash % cap
    hash_of o o' cap x e z h h' = cc

-- the nodes of m buckets from bucket j
abbrev pub all_nodes : (ℕ → List Node) → ℕ → ℕ → List Node
all_nodes cs j zero = []
all_nodes cs j (suc m) = cs j ++ all_nodes cs (suc j) m

freed-append : (w : World) (us vs : List Node) → freed w (us ++ vs) ≡ freed (freed w us) vs
freed-append w [] vs = refl
freed-append w (u ∷ us) vs = freed-append (freed_one w u) us vs

IsChain-freed :
    (cap i j : ℕ) (w : World) (p p' : Ptr) (ns ms : List Node)
    → i ≢ j
    → IsChain cap i w.cells p ns
    → IsChain cap j w.cells p' ms
    → IsChain cap i (freed w ms).cells p ns
IsChain-freed cap i j w p p' ns ms ne (out, l, d, u, pl) (out', l', d', u', pl') = (
  out,
  Links-kept cap i j w.cells (freed w ms).cells ne (freed-kept cap j w 0 p' ms out' l' d' pl') 0 p
      ns 0 out pl l,
  d,
  u,
  pl,
)

free_buckets_lem :
    (fuel cap : ℕ) (cs : ℕ → List Node) (ps : List Ptr) (j : ℕ) (w : World)
    → ((i : ℕ) → i < length ps → IsChain cap (j + i) w.cells (get_or ps i 0) (cs (j + i)))
    → ((i : ℕ) → i < length ps → length (cs (j + i)) < fuel)
    → free_buckets fuel ps w ≡ done tt (freed w (all_nodes cs j (length ps)))
unfolding free_buckets
free_buckets_lem fuel cap cs [] j w chains enough = refl
free_buckets_lem fuel cap cs (p ∷ ps) j w chains enough =
    let here = subst (λ x. IsChain cap x w.cells p (cs x)) (add_zero j) (chains 0 (omega arith)) in
    let (out, l, d, u, pl) = here in
    let moved : (i : ℕ)
        → i < length ps
        → IsChain cap (suc j + i) (freed w (cs j)).cells (get_or ps i 0) (cs (suc j + i)) =
      λ i small.
        IsChain-freed cap (suc j + i) j w (get_or ps i 0) p (cs (suc j + i)) (cs j)
          (λ z. ground arith)
          (subst (λ x. IsChain cap x w.cells (get_or ps i 0) (cs x)) (add_suc j i)
            (chains (suc i) (omega arith)))
          here in
    rw
      (free_chain_lem fuel w 0 p (cs j) out l d
        (subst (λ x. length (cs x) < fuel) (add_zero j) (enough 0 (omega arith))))
      (free_buckets_lem fuel cap cs ps (suc j) (freed w (cs j)) moved (λ i small.
          subst (λ x. length (cs x) < fuel) (add_suc j i) (enough (suc i) (omega arith)))
        ∙ ap (done tt) (sym (freed-append w (cs j) _)))

freed_lem :
    (w : World) (ns : List Node)
    → ((freed w ns).freed_slabs ≡ rev_onto (map (λ n. n.at) ns) w.freed_slabs)
      × ((freed w ns).freed_keys ≡ rev_onto (map (λ n. n.key) ns) w.freed_keys)
freed_lem w [] = (refl, refl)
freed_lem w (n ∷ ns) = freed_lem (freed_one w n) ns

freed-cells :
    (w : World) (ns : List Node) (a : Ptr)
    → (freed w ns).cells a ≡ (if stands a ns then none else w.cells a)
freed-cells w [] a = refl
freed-cells w (n ∷ ns) a =
    freed-cells (freed_one w n) ns a
    ∙ elim (Bool-cases (stands a ns)) [ inl e ↦ ground arith | inr e ↦ ground arith ]

abbrev pub Destroyed : World → (ℕ → List Node) → ℤ → World → Type 0
Destroyed w cs r w' =
    (r ≡ pos 0)
    × (w'.table.entries ≡ [])
    × (w'.table.entry_count ≡ 0)
    × (w'.freed_slabs ≡ rev_onto (map (λ n. n.at) (all_nodes cs 0 w.table.capacity)) w.freed_slabs)
    × (w'.freed_keys ≡ rev_onto (map (λ n. n.key) (all_nodes cs 0 w.table.capacity)) w.freed_keys)
    × ((a : Ptr)
        → w'.cells a ≡ (if stands a (all_nodes cs 0 w.table.capacity) then none else w.cells a))

-- hashtable_destroy returns 0 with no buckets and no count. The entries of all buckets are gone and no
-- others; each has gone back to slab_free, and the copy of its key to kfree, once for each node.
pub hashtable_destroy_lem :
    (w : World) (cs : ℕ → List Node)
    → IsTable w cs
    → (fuel : ℕ) → ((j : ℕ) → j < w.table.capacity → length (cs j) < fuel)
    → Returns (hashtable_destroy fuel w) (Destroyed w cs)
unfolding hashtable_destroy
hashtable_destroy_lem w cs (large, len, chains) fuel enough =
    let ns = all_nodes cs 0 w.table.capacity in
    let run =
      free_buckets_lem fuel w.table.capacity cs w.table.entries 0 w
        (λ i small.
          subst (λ x. IsChain w.table.capacity x w.cells (get_or w.table.entries i 0) (cs x))
            (zero_add i) (chains i (omega (arith, len))))
        (λ i small. subst (λ x. length (cs x) < fuel) (zero_add i) (enough i (omega (arith, len))))
      ∙ ap (λ m. done tt (freed w (all_nodes cs 0 m))) len in
    (
      pos 0,
      record (freed w ns) { table = record (freed w ns).table { entries = []; entry_count = 0 } },
      rw (run),
      (refl, refl, refl, (freed_lem w ns).0, (freed_lem w ns).1, freed-cells w ns),
    )
