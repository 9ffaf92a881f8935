-- ===== src/Klibc/Hashtable/Insert.antt =====
-- An entry put in front of its bucket.
use goshkik_os.Prelude.Memory.{Ptr, update, update_same, update_other}
use goshkik_os.Prelude.Run.{done}
use goshkik_os.Prelude.Int.{pos}
use goshkik_os.Klibc.Hashtable.{
  Entry, World, store, set_prev, insert_entry, set_bucket, fnv1ahash, bucket,
}
use goshkik_os.Klibc.Hashtable.Chain.{
  Node, Cells, entry_of, first, Links, stands, Links-update, Links-set_first,
}
use goshkik_os.Klibc.Hashtable.Keys.{has_key}
use goshkik_os.Klibc.Hashtable.Table.{IsChain, IsTable, Frame, Frame-trans, IsTable-update, load-at}
use goshkik_os.Klibc.Hashtable.Update.{Frame-store}
use goshkik_os.Prelude.{
  ℕ, ◌+◌, ◌%◌, ◌^◌, ◌<◌, ◌≡◌, refl, sym, ap, ◌∙◌, subst, ◌≢◌, false, Option, none, some, List, [],
  ◌∷◌, arith, ==_refl, ne→==, length, get_or, set, length-set, get_or-set,
}

-- the cells with a node in front of the nodes from `p`
abbrev pub added : Cells → Ptr → Node → List Node → Cells
added h p n [] = update h n.at (some (entry_of p 0 n))
added h p n (v ∷ vs) =
    update (update h n.at (some (entry_of p 0 n))) v.at (some (entry_of (first vs 0) n.at v))

pub some≢none : {A : Type 0} (o : Option A) (a : A) → o ≡ none → o ≡ some a → ⊥
some≢none o a e e' = cc

none-fresh :
    (h : Cells) (a prev p : Ptr) (ns : List Node) (q out : Ptr)
    → h a ≡ none
    → Links h prev p ns q out
    → stands a ns ≡ false
none-fresh h a prev p [] q out free l = refl
none-fresh h a prev p (n ∷ ns) q out free (e, nz, eq, l) =
    rw (ne→== a n.at (λ z. some≢none (h a) _ free (ap h z ∙ eq)))
      (none-fresh h a n.at _ ns q out free l)

pub IsChain-added :
    (cap : ℕ) (h : Cells) (p : Ptr) (n : Node) (ns : List Node)
    → IsChain cap (fnv1ahash n.bytes % cap) h p ns
    → h n.at ≡ none
    → n.at ≢ 0
    → has_key n.bytes ns ≡ false
    → IsChain cap (fnv1ahash n.bytes % cap) (added h p n ns) n.at (n ∷ ns)
IsChain-added cap h p n [] (out, (e, e'), d, u, pl) free nz absent = (
  n.at,
  (refl, nz, rw (==_refl n.at) (ap (λ m. some (entry_of m 0 n)) e), (refl, refl)),
  (refl, tt),
  (refl, tt),
  (refl, tt),
)
IsChain-added cap h p n (v ∷ vs) (out, l, d, u, pl) free nz absent =
    let fresh = none-fresh h n.at 0 p (v ∷ vs) 0 out free l in
    let h1 = update h n.at (some (entry_of p 0 n)) in
    let l1 = Links-update h n.at (some (entry_of p 0 n)) 0 p (v ∷ vs) 0 out fresh l in
    (
      out,
      (
        refl,
        nz,
        update_other h1 v.at _ n.at (λ z. some≢none (h n.at) _ free (ap h (sym z) ∙ l.2))
            ∙ update_same h n.at _
            ∙ ap (λ m. some (entry_of m 0 n)) l.0,
        Links-set_first h1 0 n.at v.at v vs 0 out (refl, l1.1, l1.2, l1.3) d,
      ),
      (fresh, d),
      (absent, u),
      (refl, pl),
    )

-- The world behind the insertion of a node whose key is not in the table.
abbrev pub inserted : World → Node → List Node → World
inserted w n ns = record w {
  cells = added w.cells (get_or w.table.entries (fnv1ahash n.bytes % w.table.capacity) 0) n ns;
  table = record w.table {
    entries = set w.table.entries (fnv1ahash n.bytes % w.table.capacity) n.at;
    entry_count = (w.table.entry_count + 1) % 2 ^ 64;
  };
}

pub set_prev_lem :
    (p q : Ptr) (e : Entry) (w : World)
    → p ≢ 0
    → w.cells p ≡ some e
    → set_prev p q w
      ≡ done tt (record w { cells = update w.cells p (some (record e { prev = q })) })
unfolding set_prev store
set_prev_lem p q e w nz eq = rw (load-at p e w nz eq)

pub insert_entry_lem :
    (w : World) (n : Node) (ns : List Node)
    → bucket (fnv1ahash n.bytes) w
      ≡ done (get_or w.table.entries (fnv1ahash n.bytes % w.table.capacity) 0) w
    → IsChain w.table.capacity
        (fnv1ahash n.bytes % w.table.capacity)
        w.cells
        (get_or w.table.entries (fnv1ahash n.bytes % w.table.capacity) 0)
        ns
    → w.cells n.at ≡ none
    → insert_entry n.value n.bytes (fnv1ahash n.bytes) n.at n.key w ≡ done (pos 0) (inserted w n ns)
unfolding insert_entry store set_bucket
insert_entry_lem w n [] b (out, (e, e'), d, u, pl) free = rw (b, e)
insert_entry_lem w n (v ∷ vs) b (out, (e, nz, eq, l), d, u, pl) free = rw (
  b,
  e,
  ne→== v.at 0 nz,
  set_prev_lem v.at n.at (entry_of (first vs 0) 0 v)
      (record w { cells = update w.cells n.at (some (entry_of v.at 0 n)) }) nz
      (update_other w.cells n.at _ v.at (λ z. some≢none (w.cells n.at) _ free (ap w.cells z ∙ eq))
        ∙ eq),
)

pub Frame-table :
    (j : ℕ) (w : World) (p : Ptr) (c : ℕ)
    → j < length w.table.entries
    → Frame j w
        (record w { table = record w.table { entries = set w.table.entries j p; entry_count = c } })
Frame-table j w p c small = (
  refl,
  length-set w.table.entries j p,
  λ i ne. get_or-set w.table.entries j i p 0 small ∙ rw (ne→== j i (λ z. ne (sym z))) refl,
  λ a e h ne. refl,
)

pub own_entry :
    (j : ℕ) (w : World) (p : Ptr) (e : Entry)
    → w.cells p ≡ some e
    → e.hash % w.table.capacity ≡ j
    → (e' : Entry) → w.cells p ≡ some e'
    → e'.hash % w.table.capacity ≡ j
own_entry j w p e h o e' h' = cc

Frame-inserted :
    (w : World) (n : Node) (ns : List Node)
    → IsChain w.table.capacity
        (fnv1ahash n.bytes % w.table.capacity)
        w.cells
        (get_or w.table.entries (fnv1ahash n.bytes % w.table.capacity) 0)
        ns
    → w.cells n.at ≡ none
    → fnv1ahash n.bytes % w.table.capacity < length w.table.entries
    → Frame (fnv1ahash n.bytes % w.table.capacity) w (inserted w n ns)
Frame-inserted w n [] ch free small =
    let j = fnv1ahash n.bytes % w.table.capacity in
    let p = get_or w.table.entries j 0 in
    let c = (w.table.entry_count + 1) % 2 ^ 64 in
    let w1 = record w { cells = update w.cells n.at (some (entry_of p 0 n)) } in
    Frame-trans j w w1 (inserted w n []) (Frame-store j w n.at _ (λ e h. absurd (cc)))
      (Frame-table j w1 n.at c small)
Frame-inserted w n (v ∷ vs) (out, l, d, u, pl) free small =
    let j = fnv1ahash n.bytes % w.table.capacity in
    let p = get_or w.table.entries j 0 in
    let c = (w.table.entry_count + 1) % 2 ^ 64 in
    let w1 = record w { cells = update w.cells n.at (some (entry_of p 0 n)) } in
    let w2 = record w { cells = added w.cells p n (v ∷ vs) } in
    Frame-trans j w w1 (inserted w n (v ∷ vs)) (Frame-store j w n.at _ (λ e h. absurd (cc))) (
      Frame-trans j w1 w2 (inserted w n (v ∷ vs))
        (Frame-store j w1 v.at _ (
          own_entry j w1 v.at _
            (update_other w.cells n.at _ v.at
                (λ z. some≢none (w.cells n.at) _ free (ap w.cells z ∙ l.2))
              ∙ l.2)
            pl.0))
        (Frame-table j w2 n.at c small))

pub IsTable-inserted :
    (w : World) (cs : ℕ → List Node) (n : Node)
    → IsTable w cs
    → w.cells n.at ≡ none
    → n.at ≢ 0
    → has_key n.bytes (cs (fnv1ahash n.bytes % w.table.capacity)) ≡ false
    → IsTable (inserted w n (cs (fnv1ahash n.bytes % w.table.capacity))) (
        update cs
          (fnv1ahash n.bytes % w.table.capacity)
          (n ∷ cs (fnv1ahash n.bytes % w.table.capacity)))
IsTable-inserted w cs n t free nz absent =
    let j = fnv1ahash n.bytes % w.table.capacity in
    let small : fnv1ahash n.bytes % w.table.capacity < length w.table.entries =
      omega (arith, t.0, t.1) in
    let ch = t.2 j (omega (arith, t.0)) in
    IsTable-update j w (inserted w n (cs j)) cs (n ∷ cs j) t
      (Frame-inserted w n (cs j) ch free small)
      (subst
        (λ p.
          IsChain w.table.capacity j (added w.cells (get_or w.table.entries j 0) n (cs j)) p
            (n ∷ cs j))
        (sym (get_or-set w.table.entries j j n.at 0 small ∙ rw (==_refl j) refl))
        (IsChain-added w.table.capacity w.cells (get_or w.table.entries j 0) n (cs j) ch free nz
          absent))
