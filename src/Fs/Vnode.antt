-- ===== src/Fs/Vnode.antt =====
-- src/fs/vfs/vnode.c: vnodes, their reference counts, and the cache of vnodes, which is a hash table.
pub mod Cache
pub mod Keys
pub mod Purge
mod Tests
use goshkik_os.Prelude.Memory.{Ptr, update}
use goshkik_os.Prelude.Int.{ℤ, pos, negsuc}
use goshkik_os.Prelude.Run.{
  Run, done, fault, out_of_fuel, Prog, pure, and_then, ◌>>=◌, ◌>>◌, get, modify,
}
use goshkik_os.Klibc.Hashtable.{World, hashtable_get, hashtable_set, hashtable_remove}
use goshkik_os.Prelude.{
  ℕ, zero, suc, ◌+◌, ◌-◌, ◌*◌, ◌/◌, ◌%◌, ◌^◌, ◌≤◌, ◌<◌, bit_and, bit_or, bit_xor, ◌≡◌, refl, sym,
  ap, ap₂, ◌∙◌, fun_ext, subst, subst₂, ◌≢◌, ◌↔◌, ◌⊎◌, inl, inr, Bool, true, false, not, ◌&&◌, ◌||◌,
  Option, none, some, List, [], ◌∷◌, ◌++◌, map, arith, ltb, leb, ◌==◌, if◌then◌else◌, ltb→lt,
  lt→ltb, le→ltb, ltb-false, leb→le, leb-false, leb-gt, leb-true, ==_iff, ==_refl, ne→==, ==_false,
  Bool-cases, Option-cases, length, get_elem?, get_or, set, replicate, rev_onto, length-append,
  length-set, length-replicate, get_or-replicate, get_or-set, get_elem?-get_or,
}

-- `struct vnode_t`, less the fields that vnode.c only clears. `inactive` says whether v_op and its
-- vn_inactive are there, `freeing` is the flag VFREEING, and `name` is the string in v_name.
pub record Vnode : Type 0 where
  pub freeing : Bool
  pub count : ℕ
  pub inactive : Bool
  pub parent : Ptr
  pub name : List ℕ
  pub vfsp : Ptr
  pub kind : ℕ
  pub data_ptr : Ptr

-- The vnode table, the vnodes in memory, what the next calls of slab_alloc for vnodes return (NULL when
-- the list is empty), and what went back to slab_free and to kfree, latest first.
pub record Vfs : Type 0 where
  pub table : World
  pub vnodes : Ptr → Option Vnode
  pub slabs : List Ptr
  pub freed_vnodes : List Ptr
  pub freed_data : List Ptr

abbrev pub M : Type 0 → Type 0
M = Prog Vfs

abbrev pub back : {A : Type 0} → Vfs → Run World A → Run Vfs A
back s (done a w) = done a (record s { table = w })
back s fault = fault
back s out_of_fuel = out_of_fuel

-- a call on the vnode table
pub on_table : {A : Type 0} → Prog World A → M A
on_table m s = back s (m s.table)

unfoldable pub load : Ptr → M Vnode
load p s = if p == 0 then fault else elim (s.vnodes p) [ none ↦ fault | some v ↦ done v s ]

unfoldable pub store : Ptr → Vnode → M (Unit {0})
store p v = modify (λ s. record s { vnodes = update s.vnodes p (some v) })

unfoldable pub slab_alloc : M Ptr
slab_alloc s = elim s.slabs [ [] ↦ done 0 s | p ∷ ps ↦ done p (record s { slabs = ps }) ]

unfoldable pub slab_free : Ptr → M (Unit {0})
slab_free p =
    modify (λ s. record s { vnodes = update s.vnodes p none; freed_vnodes = p ∷ s.freed_vnodes })

-- the errors of errno.h that vnode.c returns, negated
abbrev pub enoent : ℤ
enoent = negsuc 1

abbrev pub eio : ℤ
eio = negsuc 4

abbrev pub eexist : ℤ
eexist = negsuc 16

abbrev pub einval : ℤ
einval = negsuc 21

abbrev pub enosys : ℤ
enosys = negsuc 87

abbrev pub is_zero : ℤ → Bool
is_zero (pos n) = n == 0
is_zero (negsuc n) = false

-- `NAME_MAX`
abbrev pub name_max : ℕ
name_max = 255

abbrev pub take : ℕ → List ℕ → List ℕ
take zero cs = []
take (suc n) [] = []
take (suc n) (c ∷ cs) = c ∷ take n cs

-- the n lowest bytes of a number, the lowest first
pub bytes_of : ℕ → ℕ → List ℕ
bytes_of zero x = []
bytes_of (suc n) x = x % 256 ∷ bytes_of n (x / 256)

pub create_vnode_key : Ptr → ℕ → List ℕ
create_vnode_key vfsp nodeid = bytes_of 8 vfsp ++ bytes_of 8 nodeid

-- `fuel` is for the walk along a bucket of the table.
pub vnode_cache_insert_locked : ℕ → Ptr → ℕ → Ptr → M ℤ
vnode_cache_insert_locked fuel vfsp nodeid vp =
    on_table (hashtable_set fuel vp (create_vnode_key vfsp nodeid))

-- the status, and what is written through `out_vp`
pub vnode_cache_lookup_locked : ℕ → Ptr → ℕ → M (ℤ × Option Ptr)
vnode_cache_lookup_locked fuel vfsp nodeid =
    on_table (hashtable_get fuel (create_vnode_key vfsp nodeid))

unfoldable pub vnode_cache_remove_locked : ℕ → Ptr → ℕ → M ℤ
vnode_cache_remove_locked fuel vfsp nodeid =
    on_table (hashtable_remove fuel (create_vnode_key vfsp nodeid))

-- `ret == 0 && existing`, where `existing` was NULL before the call
pub hit : ℤ × Option Ptr → Option Ptr
hit (ret, existing) =
    if is_zero ret
    then (elim existing [ none ↦ none | some vp ↦ if vp == 0 then none else some vp ])
    else none

pub vnode_ref : Ptr → M (Unit {0})
vnode_ref vp = do v ← load vp; store vp (record v { count = (v.count + 1) % 2 ^ 32 })

-- `vn_inactive` is the operation of the file system that v_op names, and `fuel` bounds the chain of
-- parents. vnode_unref faults where the kernel halts.
module _ (vn_inactive : Ptr → M (Unit {0})) where
  -- the part of vnode_free behind its test, with vnode_unref for the parent
  unfoldable pub free_with : (Ptr → M (Unit {0})) → Ptr → M (Unit {0})
  free_with unref vp = do
    v ← load vp
    if v.data_ptr == 0 then pure tt else (do
      modify (λ s. record s { freed_data = v.data_ptr ∷ s.freed_data })
      store vp (record v { data_ptr = 0 }))
    v ← load vp
    if v.parent == 0
        then pure tt
        else (do unref v.parent; v ← load vp; store vp (record v { parent = 0 }))
    slab_free vp

  unfoldable pub vnode_unref : ℕ → Ptr → M (Unit {0})
  vnode_unref zero vp = λ _. out_of_fuel
  vnode_unref (suc f) vp = do
    v ← load vp
    store vp (record v { count = (v.count + 2 ^ 32 - 1) % 2 ^ 32 })
    if v.count == 0
        then (λ _. fault)
        else (if ltb 1 v.count then pure tt else (do
          v ← load vp
          store vp (record v { freeing = true })
          if v.freeing then pure tt else (do
            if v.inactive then vn_inactive vp else pure tt
            free_with (vnode_unref f) vp)))

  unfoldable pub vnode_free : ℕ → Ptr → M (Unit {0})
  vnode_free fuel vp = if vp == 0 then pure tt else free_with (vnode_unref fuel) vp

  unfoldable pub vnode_put : ℕ → Ptr → M (Unit {0})
  vnode_put fuel vp = if vp == 0 then pure tt else vnode_unref fuel vp

  unfoldable pub vnode_clear_parent : ℕ → Ptr → M (Unit {0})
  vnode_clear_parent fuel child = if child == 0 then pure tt else (do
    v ← load child
    if v.parent == 0
        then pure tt
        else (do vnode_unref fuel v.parent; v ← load child; store child (record v { parent = 0 }))
    v ← load child
    store child (record v { name = [] }))

unfoldable pub vnode_alloc : Ptr → ℕ → M Ptr
vnode_alloc vfsp kind = do
  vp ← slab_alloc
  if vp == 0 then pure 0 else (do
    store vp (record {
      freeing = false;
      count = 1;
      inactive = false;
      parent = 0;
      name = [];
      vfsp = vfsp;
      kind = kind;
      data_ptr = 0;
    })
    pure vp)

-- the end of vnode_cache_insert
abbrev pub insert_unless : ℕ → Ptr → ℕ → Ptr → Option Ptr → M ℤ
insert_unless fuel vfsp nodeid vp (some existing) = pure eexist
insert_unless fuel vfsp nodeid vp none = vnode_cache_insert_locked fuel vfsp nodeid vp

pub vnode_cache_insert : ℕ → Ptr → ℕ → Ptr → M ℤ
vnode_cache_insert fuel vfsp nodeid vp = if (vfsp == 0) || (vp == 0) then pure einval else (do
  found ← vnode_cache_lookup_locked fuel vfsp nodeid
  insert_unless fuel vfsp nodeid vp (hit found))

-- the end of vnode_cache_lookup: the status, and what it has written through `out_vp`
abbrev pub ref_found : Option Ptr → M (ℤ × Option Ptr)
ref_found none = pure (enoent, none)
ref_found (some vp) = do vnode_ref vp; pure (pos 0, none)

-- The status, and what is written through `out_vp`: no branch writes anything. `has_out` says that
-- `out_vp` is not NULL.
pub vnode_cache_lookup : ℕ → Ptr → ℕ → Bool → M (ℤ × Option Ptr)
vnode_cache_lookup fuel vfsp nodeid has_out =
    if (vfsp == 0) || not has_out
    then pure (einval, none)
    else (do found ← vnode_cache_lookup_locked fuel vfsp nodeid; ref_found (hit found))

-- the value of a variable that was `old` before a call that may write through its address
abbrev pub written_over : Ptr → Option Ptr → Ptr
written_over old none = old
written_over old (some vp) = vp

unfoldable pub vnode_cache_remove : ℕ → Ptr → ℕ → M ℤ
vnode_cache_remove fuel vfsp nodeid =
    if vfsp == 0 then pure einval else vnode_cache_remove_locked fuel vfsp nodeid

-- `vget` is the operation vfs_vget of the file system, when it is there: the status and the vnode. The
-- result is the status and what is written through `out`. `vp` is NULL before vnode_cache_lookup gets its
-- address.
pub vnode_get :
    (Ptr → M (Unit {0}))
    → ℕ
    → ℕ
    → Option (Ptr → ℕ → M (ℤ × Ptr))
    → Ptr
    → Bool
    → ℕ
    → M (ℤ × Option Ptr)
vnode_get vn_inactive fuel parents vfs_vget vfsp has_out nodeid =
    if (vfsp == 0) || not has_out then pure (einval, none) else (do
      (ret, written) ← vnode_cache_lookup fuel vfsp nodeid true
      let vp = written_over 0 written
      if is_zero ret then pure (pos 0, some vp) else elim vfs_vget [
        | none ↦ pure (enosys, none)
        | some vget ↦ (do
          (ret, vp) ← vget vfsp nodeid
          if not (is_zero ret)
              then pure (ret, none)
              else (if vp == 0 then pure (eio, none) else (do
                v ← load vp
                store vp (record v { vfsp = vfsp })
                found ← vnode_cache_lookup_locked fuel vfsp nodeid
                elim (hit found) [
                  | some existing ↦ (do
                    vnode_ref existing
                    vnode_unref vn_inactive parents vp
                    pure (pos 0, some existing))
                  | none ↦ (do vnode_cache_insert_locked fuel vfsp nodeid vp; pure (pos 0, some vp))
                ])))
      ])

-- `name` is none for NULL; NAME_MAX bytes of it are copied at most
unfoldable pub vnode_set_parent :
    (Ptr → M (Unit {0})) → ℕ → Ptr → Ptr → Option (List ℕ) → M (Unit {0})
vnode_set_parent vn_inactive fuel child parent name = if child == 0 then pure tt else (do
  vnode_clear_parent vn_inactive fuel child
  if parent == 0 then pure tt else vnode_ref parent
  v ← load child
  store child
      (record v { parent = parent; name = elim name [ none ↦ [] | some s ↦ take name_max s ] }))
