-- ===== src/Klibc/Hashtable/Unlink.antt =====
-- The two writes of unlink_entry, each on one side of the node that goes.
use goshkik_os.Prelude.Memory.{Ptr, update, update_other}
use goshkik_os.Prelude.Run.{done, pure, Returns}
use goshkik_os.Klibc.Hashtable.{Entry, World, store, set_next, set_prev, set_bucket}
use goshkik_os.Klibc.Hashtable.Chain.{
  Node, Cells, entry_of, first, Links, stands, Distinct, Links-update, Links-set_last,
  Links-set_first,
}
use goshkik_os.Klibc.Hashtable.Keys.{Placed}
use goshkik_os.Klibc.Hashtable.Table.{Frame, Frame-refl, load-at}
use goshkik_os.Klibc.Hashtable.Update.{Frame-store}
use goshkik_os.Klibc.Hashtable.Insert.{set_prev_lem, Frame-table, own_entry}
use goshkik_os.Prelude.{
  ℕ, ◌%◌, ◌<◌, ◌≡◌, refl, sym, ap, ◌∙◌, ◌≢◌, inl, inr, true, false, Option, some, List, [], ◌∷◌,
  arith, ◌==◌, if◌then◌else◌, ==_iff, ==_refl, ne→==, Bool-cases, length, get_or, set, get_or-set,
}

entry-Placed :
    (cap j : ℕ) (h : Cells) (prev p : Ptr) (ns : List Node) (q out a : Ptr) (e : Entry)
    → Links h prev p ns q out
    → Placed cap j ns
    → stands a ns ≡ true
    → h a ≡ some e
    → e.hash % cap ≡ j
entry-Placed cap j h prev p [] q out a e l pl s eq = absurd (cc)
entry-Placed cap j h prev p (n ∷ ns) q out a e (x, nz, at, l) pl s eq =
    elim (Bool-cases (a == n.at)) [
      | inl y ↦
          placed_at cap j h a n.at (entry_of (first ns q) prev n) e ((==_iff a n.at).0 y) at eq pl.0
      | inr y ↦ entry-Placed cap j h n.at (first ns q) ns q out a e l pl.1 (ground arith) eq
    ]
  where
    placed_at :
        (cap j : ℕ) (h : Cells) (a b : Ptr) (x e : Entry)
        → a ≡ b
        → h b ≡ some x
        → h a ≡ some e
        → x.hash % cap ≡ j
        → e.hash % cap ≡ j
    placed_at cap j h a b x e z hx he o = cc

-- a write on top of other changes of the same bucket
pub Frame-store_on :
    (j : ℕ) (w w' : World) (p : Ptr) (v : Option Entry) (e : Entry)
    → Frame j w w'
    → w.cells p ≡ some e
    → e.hash % w.table.capacity ≡ j
    → Frame j w (record w' { cells = update w'.cells p v })
Frame-store_on j w w' p v e (c, l, o, s) eq own = (
  c,
  l,
  o,
  λ a x h ne.
      update_other w'.cells p v a (λ z. ne (own_entry j w p e eq own x (ap w.cells z ∙ h)))
      ∙ s a x h ne,
)

set_next_lem :
    (p q : Ptr) (e : Entry) (w : World)
    → p ≢ 0
    → w.cells p ≡ some e
    → set_next p q w
      ≡ done tt (record w { cells = update w.cells p (some (record e { next = q })) })
unfolding set_next store
set_next_lem p q e w nz eq = rw (load-at p e w nz eq)

-- the nodes in front of the one that goes link to those behind it
abbrev pub LeftDone :
    World → ℕ → List Node → List Node → Ptr → Ptr → Ptr → Unit {0} → World → Type 0
LeftDone w hash us vs at mid out u w1 =
    Frame (hash % w.table.capacity) w w1
    × Links w1.cells 0 (get_or w1.table.entries (hash % w.table.capacity) 0) us (first vs 0) mid
    × Links w1.cells at (first vs 0) vs 0 out

pub unlink_left :
    (w : World) (hash : ℕ) (us vs : List Node) (at mid out : Ptr)
    → hash % w.table.capacity < length w.table.entries
    → Links w.cells 0 (get_or w.table.entries (hash % w.table.capacity) 0) us at mid
    → Links w.cells at (first vs 0) vs 0 out
    → Placed w.table.capacity (hash % w.table.capacity) us
    → Distinct us
    → ((a : Ptr) → stands a us ≡ true → stands a vs ≡ false)
    → Returns
        ((if mid == 0 then set_bucket hash (first vs 0) else set_next mid (first vs 0)) w)
        (LeftDone w hash us vs at mid out)
unfolding set_bucket
unlink_left w hash [] vs at mid out small (e, e') l2 pl d apart =
    let j = hash % w.table.capacity in
    (
      tt,
      record w { table = record w.table { entries = set w.table.entries j (first vs 0) } },
      rw (sym e'),
      (
        Frame-table j w (first vs 0) w.table.entry_count small,
        (get_or-set w.table.entries j j (first vs 0) 0 small ∙ rw (==_refl j) refl, e'),
        l2,
      ),
    )
unlink_left w hash (u ∷ us) vs at mid out small l1 l2 pl d apart =
    let j = hash % w.table.capacity in
    let (e, eq, nz, s, l) = Links-set_last w.cells 0 _ u us at (first vs 0) mid l1 d in
    (
      tt,
      record w { cells = update w.cells mid (some (record e { next = first vs 0 })) },
      rw (ne→== mid 0 nz) (set_next_lem mid (first vs 0) e w nz eq),
      (
        Frame-store j w mid _ (
            own_entry j w mid e eq
              (entry-Placed w.table.capacity j w.cells 0 _ (u ∷ us) at mid mid e l1 pl s eq)),
        l,
        Links-update w.cells mid _ at (first vs 0) vs 0 out (apart mid s) l2,
      ),
    )

-- the nodes behind the one that goes link back to those in front of it
abbrev pub RightDone : ℕ → World → Ptr → List Node → List Node → Ptr → Unit {0} → World → Type 0
RightDone j w p us vs mid u w1 =
    Frame j w w1
    × (w1.table ≡ w.table)
    × Links w1.cells 0 p us (first vs 0) mid
    × ((out : Ptr) × Links w1.cells mid (first vs 0) vs 0 out)

pub unlink_right :
    (j : ℕ) (w : World) (p : Ptr) (us vs : List Node) (at mid out : Ptr)
    → Links w.cells 0 p us (first vs 0) mid
    → Links w.cells at (first vs 0) vs 0 out
    → Placed w.table.capacity j vs
    → Distinct vs
    → ((a : Ptr) → stands a us ≡ true → stands a vs ≡ false)
    → Returns
        ((if first vs 0 == 0 then pure tt else set_prev (first vs 0) mid) w)
        (RightDone j w p us vs mid)
unlink_right j w p us [] at mid out l1 l2 pl d apart =
    (tt, w, refl, (Frame-refl j w, refl, l1, (mid, (refl, refl))))
unlink_right j w p us (v ∷ vs) at mid out l1 (e, nz, eq, l2) pl d apart = (
  tt,
  record w { cells = update w.cells v.at (some (entry_of (first vs 0) mid v)) },
  rw (ne→== v.at 0 nz) (set_prev_lem v.at mid (entry_of (first vs 0) at v) w nz eq),
  (
    Frame-store j w v.at _ (own_entry j w v.at _ eq pl.0),
    refl,
    Links-update w.cells v.at _ 0 p us v.at mid (ground (arith, apart v.at)) l1,
    (out, Links-set_first w.cells at mid v.at v vs 0 out (refl, nz, eq, l2) d),
  ),
)
