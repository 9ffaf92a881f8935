-- ===== src/Fs/Path/Cache.antt =====
-- The name cache against the map that its table stands for.
use goshkik_os.Prelude.Memory.{Ptr}
use goshkik_os.Prelude.Int.{pos}
use goshkik_os.Prelude.Run.{done, Prog}
use goshkik_os.Klibc.Hashtable.{World, fnv1ahash, hashtable_get}
use goshkik_os.Klibc.Hashtable.Chain.{Node}
use goshkik_os.Klibc.Hashtable.Table.{IsTable, view}
use goshkik_os.Klibc.Hashtable.Lookup.{hashtable_get_lem}
use goshkik_os.Fs.Vnode.{Vnode, Vfs, enoent, vnode_ref}
use goshkik_os.Fs.Vnode.Cache.{nonzero, answer, hit-answer, nonzero_lem, referenced, vnode_ref_lem}
use goshkik_os.Fs.Path.{Names, on_names, on_vfs, make_namecache_key, namecache_lookup}
use goshkik_os.Prelude.{
  ℕ, ◌%◌, ◌<◌, ◌≡◌, refl, ◌≢◌, ◌⊎◌, inl, inr, true, Option, none, some, List, ne→==, Option-cases,
  length,
}

-- what the name cache holds for a key
abbrev pub named : Names → (ℕ → List Node) → List ℕ → Option Ptr
named s cs key = nonzero (view cs s.entries.table.capacity key)

on_names_lem :
    {A : Type 0} (m : Prog World A) (s : Names) (a : A) (w : World)
    → m s.entries ≡ done a w
    → on_names m s ≡ done a (record s { entries = w })
unfolding on_names
on_names_lem m s a w e = rw (e) refl

on_vfs_lem :
    {A : Type 0} (m : Prog Vfs A) (s : Names) (a : A) (v : Vfs)
    → m s.vfs ≡ done a v
    → on_vfs m s ≡ done a (record s { vfs = v })
unfolding on_vfs
on_vfs_lem m s a v e = rw (e) refl

module _ (s : Names) (cs : ℕ → List Node) (t : IsTable s.entries cs) (fuel : ℕ) (stack : ℕ → ℕ)
    (dvp : Ptr) (name : List ℕ) (known : dvp ≢ 0)
    (enough : length (cs (fnv1ahash (make_namecache_key stack dvp name) % s.entries.table.capacity))
      < fuel) where
  search_names :
      on_names (hashtable_get fuel (make_namecache_key stack dvp name)) s
      ≡ done (answer (view cs s.entries.table.capacity (make_namecache_key stack dvp name))) s
  search_names =
      on_names_lem (hashtable_get fuel (make_namecache_key stack dvp name)) s _ s.entries
        (hashtable_get_lem s.entries cs t fuel (make_namecache_key stack dvp name) enough)

  -- namecache_lookup, when the vnodes that the cache holds are there: it returns -ENOENT and changes nothing
  -- when the cache has no entry under the key that it makes, and otherwise 0 with the vnode, to which there is one
  -- reference more.
  pub namecache_lookup_cases :
      ((vp : Ptr)
        → named s cs (make_namecache_key stack dvp name) ≡ some vp
        → (v : Vnode) × (s.vfs.vnodes vp ≡ some v))
      → ((named s cs (make_namecache_key stack dvp name) ≡ none)
          × (namecache_lookup fuel stack dvp (some name) true s ≡ done (enoent, none) s))
        ⊎ ((vp : Ptr) × (v : Vnode) × (named s cs (make_namecache_key stack dvp name) ≡ some vp)
            × (s.vfs.vnodes vp ≡ some v)
            × (namecache_lookup fuel stack dvp (some name) true s
                ≡ done (pos 0, some vp) (record s { vfs = referenced s.vfs vp v })))
  unfolding namecache_lookup
  namecache_lookup_cases there =
      let o = view cs s.entries.table.capacity (make_namecache_key stack dvp name) in
      elim (Option-cases (named s cs (make_namecache_key stack dvp name))) [
        | inl gone ↦ inl (gone, rw (ne→== dvp 0 known, search_names, hit-answer o, gone) refl)
        | inr (vp, here) ↦
            let (v, at) = there vp here in
            let ref =
              on_vfs_lem (vnode_ref vp) s tt _
                (vnode_ref_lem s.vfs vp v (nonzero_lem o vp here) at) in
            inr
              (vp, v, here, at, rw (ne→== dvp 0 known, search_names, hit-answer o, here, ref) refl)
      ]
