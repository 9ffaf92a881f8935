-- ===== src/Fs/Vnode/Cache.antt =====
-- The vnode cache against the map that its table stands for.
use goshkik_os.Prelude.Memory.{Ptr, update, update_same, update_other}
use goshkik_os.Prelude.Int.{ℤ, pos, negsuc}
use goshkik_os.Prelude.Run.{done, Prog, Returns, pure, ◌>>=◌}
use goshkik_os.Klibc.Hashtable.{World, fnv1ahash, hashtable_get, hashtable_set}
use goshkik_os.Klibc.Hashtable.Chain.{Node}
use goshkik_os.Klibc.Hashtable.Table.{IsTable, view}
use goshkik_os.Klibc.Hashtable.Lookup.{hashtable_get_lem}
use goshkik_os.Klibc.Hashtable.Set.{IsFresh, Stored, hashtable_set_lem}
use goshkik_os.Fs.Vnode.{
  Vnode, Vfs, M, on_table, load, store, enoent, eexist, hit, create_vnode_key,
  vnode_cache_insert_locked, vnode_cache_lookup_locked, vnode_ref, vnode_cache_insert,
  vnode_cache_lookup, vnode_get,
}
use goshkik_os.Prelude.{
  ℕ, zero, suc, ◌+◌, ◌%◌, ◌^◌, ◌<◌, ◌≡◌, refl, sym, ap, ◌∙◌, ◌≢◌, ◌⊎◌, inl, inr, true, Option, none,
  some, List, [], ◌∷◌, arith, ◌==◌, if◌then◌else◌, ne→==, ==_false, Bool-cases, Option-cases,
  length, replicate,
}

-- a NULL counts as nothing
abbrev pub nonzero : Option Ptr → Option Ptr
nonzero none = none
nonzero (some vp) = if vp == 0 then none else some vp

-- what the cache holds for a node
abbrev pub cached : Vfs → (ℕ → List Node) → Ptr → ℕ → Option Ptr
cached s cs vfsp nodeid = nonzero (view cs s.table.table.capacity (create_vnode_key vfsp nodeid))

pub nonzero_lem : (o : Option Ptr) (vp : Ptr) → nonzero o ≡ some vp → vp ≢ 0
nonzero_lem none vp e = λ z. cc
nonzero_lem (some p) vp e = elim (Bool-cases (p == 0)) [
  | inl z ↦ absurd (none-some vp (rw z at e))
  | inr n ↦ λ z. ==_false p 0 n (some-eq p vp (rw n at e) ∙ z)
]
  where
    none-some : (vp : Ptr) → ◌≡◌ {A = Option Ptr} none (some vp) → ⊥
    none-some vp e = cc

    some-eq : (p vp : Ptr) → some p ≡ some vp → p ≡ vp
    some-eq p vp e = cc

-- what hashtable_get returns for a value of the map
abbrev pub answer : Option ℕ → ℤ × Option ℕ
answer o = elim o [ none ↦ (negsuc 0, none) | some v ↦ (pos 0, some v) ]

pub hit-answer : (o : Option ℕ) → hit (answer o) ≡ nonzero o
unfolding hit
hit-answer none = refl
hit-answer (some v) = refl

on_table_lem :
    {A : Type 0} (m : Prog World A) (s : Vfs) (a : A) (w : World)
    → m s.table ≡ done a w
    → on_table m s ≡ done a (record s { table = w })
unfolding on_table
on_table_lem m s a w e = rw (e) refl

-- one reference more to a vnode
abbrev pub referenced : Vfs → Ptr → Vnode → Vfs
referenced s vp v = record s {
  vnodes = update s.vnodes vp (some (record v { count = (v.count + 1) % 2 ^ 32 }));
}

pub vnode_ref_lem :
    (s : Vfs) (vp : Ptr) (v : Vnode)
    → vp ≢ 0
    → s.vnodes vp ≡ some v
    → vnode_ref vp s ≡ done tt (referenced s vp v)
unfolding vnode_ref load store
vnode_ref_lem s vp v nz at = rw (ne→== vp 0 nz, at)

abbrev pub Inserted : Vfs → (ℕ → List Node) → Ptr → ℕ → Ptr → ℤ → Vfs → Type 0
Inserted s cs vfsp nodeid vp r s' =
    (((old : Ptr) × (cached s cs vfsp nodeid ≡ some old)) × (r ≡ eexist) × (s' ≡ s))
    ⊎ ((cached s cs vfsp nodeid ≡ none)
        × Stored s.table cs (create_vnode_key vfsp nodeid) vp r s'.table
        × (s'.vnodes ≡ s.vnodes))

module _ (s : Vfs) (cs : ℕ → List Node) (t : IsTable s.table cs) (fuel : ℕ) (vfsp : Ptr)
    (nodeid : ℕ) (known : vfsp ≢ 0)
    (enough : length (cs (fnv1ahash (create_vnode_key vfsp nodeid) % s.table.table.capacity))
      < fuel) where
  lookup_locked_lem :
      vnode_cache_lookup_locked fuel vfsp nodeid s
      ≡ done (answer (view cs s.table.table.capacity (create_vnode_key vfsp nodeid))) s
  unfolding vnode_cache_lookup_locked
  lookup_locked_lem =
      on_table_lem (hashtable_get fuel (create_vnode_key vfsp nodeid)) s _ s.table
        (hashtable_get_lem s.table cs t fuel (create_vnode_key vfsp nodeid) enough)

  vnode_cache_lookup_lem :
      (vp : Ptr) (v : Vnode)
      → cached s cs vfsp nodeid ≡ some vp
      → vp ≢ 0
      → s.vnodes vp ≡ some v
      → vnode_cache_lookup fuel vfsp nodeid true s ≡ done (pos 0, none) (referenced s vp v)
  unfolding vnode_cache_lookup vnode_ref load store
  vnode_cache_lookup_lem vp v here nz at = rw (
    ne→== vfsp 0 known,
    lookup_locked_lem,
    hit-answer (view cs s.table.table.capacity (create_vnode_key vfsp nodeid)),
    here,
    ne→== vp 0 nz,
    at,
  )

  vnode_cache_lookup_missing :
      cached s cs vfsp nodeid ≡ none
      → vnode_cache_lookup fuel vfsp nodeid true s ≡ done (enoent, none) s
  unfolding vnode_cache_lookup
  vnode_cache_lookup_missing gone =
      rw
        (
          ne→== vfsp 0 known,
          lookup_locked_lem,
          hit-answer (view cs s.table.table.capacity (create_vnode_key vfsp nodeid)),
          gone,
        )
        refl

  -- vnode_cache_lookup, when the vnodes that the cache holds are there: it returns -ENOENT and changes
  -- nothing when the cache holds none for the node, and otherwise 0, with one reference more to the vnode.
  pub vnode_cache_lookup_cases :
      ((vp : Ptr) → cached s cs vfsp nodeid ≡ some vp → (v : Vnode) × (s.vnodes vp ≡ some v))
      → ((cached s cs vfsp nodeid ≡ none)
          × (vnode_cache_lookup fuel vfsp nodeid true s ≡ done (enoent, none) s))
        ⊎ ((vp : Ptr) × (v : Vnode) × (cached s cs vfsp nodeid ≡ some vp)
            × (s.vnodes vp ≡ some v)
            × (vnode_cache_lookup fuel vfsp nodeid true s ≡ done (pos 0, none) (referenced s vp v)))
  vnode_cache_lookup_cases there = elim (Option-cases (cached s cs vfsp nodeid)) [
    | inl gone ↦ inl (gone, vnode_cache_lookup_missing gone)
    | inr (vp, here) ↦
        let (v, at) = there vp here in
        let nz =
          nonzero_lem (view cs s.table.table.capacity (create_vnode_key vfsp nodeid)) vp here in
        inr (vp, v, here, at, vnode_cache_lookup_lem vp v here nz at)
  ]

  -- vnode_get of a node that is in the cache
  vnode_get-cached :
      (vn_inactive : Ptr → M (Unit {0})) (parents : ℕ) (vget : Option (Ptr → ℕ → M (ℤ × Ptr)))
      (vp : Ptr) (v : Vnode)
      → cached s cs vfsp nodeid ≡ some vp
      → vp ≢ 0
      → s.vnodes vp ≡ some v
      → vnode_get vn_inactive fuel parents vget vfsp true nodeid s
        ≡ done (pos 0, some 0) (referenced s vp v)
  unfolding vnode_get
  vnode_get-cached vn_inactive parents vget vp v here nz at =
      rw (ne→== vfsp 0 known, vnode_cache_lookup_lem vp v here nz at) refl

  -- vnode_cache_insert returns: -EEXIST with nothing changed when the cache holds a vnode for the node;
  -- otherwise what hashtable_set does to the map for this node, with the vnodes as they are.
  pub vnode_cache_insert_lem :
      (vp : Ptr)
      → vp ≢ 0
      → IsFresh s.table
      → Returns (vnode_cache_insert fuel vfsp nodeid vp s) (Inserted s cs vfsp nodeid vp)
  unfolding vnode_cache_insert vnode_cache_insert_locked
  vnode_cache_insert_lem vp nz fresh =
      let key = create_vnode_key vfsp nodeid in
      let o = view cs s.table.table.capacity key in
      elim (Option-cases (cached s cs vfsp nodeid)) [
        | inl gone ↦
            let (r, w, run, st) = hashtable_set_lem s.table cs t fuel key vp enough fresh in
            (
              r,
              record s { table = w },
              rw (ne→== vfsp 0 known, ne→== vp 0 nz, lookup_locked_lem, hit-answer o, gone)
                  (on_table_lem (hashtable_set fuel vp key) s r w run),
              inr (gone, st, refl),
            )
        | inr (old, here) ↦ (
          eexist,
          s,
          rw (ne→== vfsp 0 known, ne→== vp 0 nz, lookup_locked_lem, hit-answer o, here) refl,
          inl ((old, here), refl, refl),
        )
      ]

-- a call n times over, with all results
pub calls : {A : Type 0} → ℕ → M A → M (List A)
calls zero m = pure []
calls (suc n) m = do a ← m; rest ← calls n m; pure (a ∷ rest)

-- the count of a vnode after n references more
abbrev pub counted : Vnode → ℕ → Vnode
counted v n = record v { count = (v.count + n) % 2 ^ 32 }

-- What n calls of vnode_get leave behind: the results, one vnode with n references more, and nothing else.
pub record Leaked (n : ℕ) (s : Vfs) (vp : Ptr) (v : Vnode) (rs : List (ℤ × Option Ptr)) (s' : Vfs)
    : Type 0 where
  pub results : rs ≡ replicate n (pos 0, some 0)
  pub vnode : s'.vnodes vp ≡ some (counted v n)
  pub others : (p : Ptr) → p ≢ vp → s'.vnodes p ≡ s.vnodes p
  pub same_table : s'.table ≡ s.table

count_more : (c n : ℕ) → (((c + 1) % 2 ^ 32) + n) % 2 ^ 32 ≡ (c + suc n) % 2 ^ 32
count_more c n = omega arith

-- Any number n of calls of vnode_get for a node that is in the cache return, whatever the file system does.
-- Each returns 0 and hands out NULL, and together they leave n references more on the vnode (modulo
-- 2 ^ 32); the table and all other vnodes stay as they are.
pub vnode_get-Leaked :
    (n : ℕ) (s : Vfs) (cs : ℕ → List Node) (fuel : ℕ) (vfsp : Ptr) (nodeid : ℕ)
    (vn_inactive : Ptr → M (Unit {0})) (parents : ℕ) (vget : Option (Ptr → ℕ → M (ℤ × Ptr)))
    (vp : Ptr) (v : Vnode)
    → IsTable s.table cs
    → vfsp ≢ 0
    → length (cs (fnv1ahash (create_vnode_key vfsp nodeid) % s.table.table.capacity)) < fuel
    → cached s cs vfsp nodeid ≡ some vp
    → s.vnodes vp ≡ some v
    → v.count < 2 ^ 32
    → Returns
        (calls n (vnode_get vn_inactive fuel parents vget vfsp true nodeid) s)
        (Leaked n s vp v)
unfolding calls
vnode_get-Leaked zero s cs fuel vfsp nodeid vn_inactive parents vget vp v t known enough here at
      bound =
    (
      [],
      s,
      refl,
      record {
        results = refl;
        vnode = at ∙ ap (λ c. some (record v { count = c })) (omega arith);
        others = λ p ne. refl;
        same_table = refl;
      },
    )
vnode_get-Leaked (suc n) s cs fuel vfsp nodeid vn_inactive parents vget vp v t known enough here at
      bound =
    let nz = nonzero_lem (view cs s.table.table.capacity (create_vnode_key vfsp nodeid)) vp here in
    let run1 =
      vnode_get-cached s cs t fuel vfsp nodeid known enough vn_inactive parents vget vp v here nz
        at in
    let (rs, s', run, l) =
      vnode_get-Leaked n (referenced s vp v) cs fuel vfsp nodeid vn_inactive parents vget vp
        (counted v 1) t known enough here (update_same s.vnodes vp (some (counted v 1)))
        (omega arith) in
    (
      (pos 0, some 0) ∷ rs,
      s',
      rw (run1, run) refl,
      record {
        results = ap (◌∷◌ (pos 0, some 0)) l.results;
        vnode = l.vnode ∙ ap (λ c. some (record v { count = c })) (count_more v.count n);
        others = λ p ne.
            l.others p ne ∙ update_other s.vnodes vp (some (counted v 1)) p (λ e. ne (sym e));
        same_table = l.same_table;
      },
    )
