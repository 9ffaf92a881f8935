-- ===== src/Fs/Mount.antt =====
-- src/fs/vfs/vfs.c: mounted file systems and the table of mounts.
pub mod Table
mod Tests
use goshkik_os.Prelude.Memory.{Ptr, update}
use goshkik_os.Prelude.Int.{ℤ, pos, negsuc}
use goshkik_os.Prelude.Run.{Run, done, fault, out_of_fuel, Prog, pure, ◌>>=◌, ◌>>◌, get, modify}
use goshkik_os.Klibc.Hashtable.{World, Entry, hashtable_get, hashtable_set, hashtable_remove}
use goshkik_os.Fs.Vnode.{Vfs, Vnode, einval, is_zero, take, vnode_ref, vnode_unref}
use goshkik_os.Fs.Vnode.Purge.{vfs_purge_vnodes}
use goshkik_os.Prelude.{
  ℕ, zero, suc, ◌+◌, ◌-◌, ◌*◌, ◌/◌, ◌%◌, ◌^◌, ◌≤◌, ◌<◌, bit_and, bit_or, bit_xor, ◌≡◌, refl, sym,
  ap, ap₂, ◌∙◌, fun_ext, subst, subst₂, ◌≢◌, ◌↔◌, ◌⊎◌, inl, inr, Bool, true, false, not, ◌&&◌, ◌||◌,
  Option, none, some, List, [], ◌∷◌, ◌++◌, map, arith, ltb, leb, ◌==◌, if◌then◌else◌, ltb→lt,
  lt→ltb, le→ltb, ltb-false, leb→le, leb-false, leb-gt, leb-true, ==_iff, ==_refl, ne→==, ==_false,
  Bool-cases, Option-cases, length, get_elem?, get_or, set, replicate, rev_onto, length-append,
  length-set, length-replicate, get_or-replicate, get_or-set, get_elem?-get_or,
}

-- `VFS_MOUNT_PATH_MAX`
abbrev pub vfs_mount_path_max : ℕ
vfs_mount_path_max = 256

-- `struct vfs_t`, less the fields that vfs.c only clears or never touches. The flags say whether vfs_op and
-- the operation are there; `mount_path` is the string in vfs_mount_path.
pub record Mount : Type 0 where
  pub can_mount : Bool
  pub can_unmount : Bool
  pub can_root : Bool
  pub covered : Ptr
  pub flag : ℕ
  pub mount_path : List ℕ

-- the vnodes, the file systems in memory, the table of mounts, and what went back to slab_free
pub record Mounts : Type 0 where
  pub vfs : Vfs
  pub mounts : Ptr → Option Mount
  pub table : World
  pub freed_mounts : List Ptr

abbrev pub M : Type 0 → Type 0
M = Prog Mounts

abbrev pub back_table : {A : Type 0} → Mounts → Run World A → Run Mounts A
back_table s (done a w) = done a (record s { table = w })
back_table s fault = fault
back_table s out_of_fuel = out_of_fuel

abbrev pub back_vfs : {A : Type 0} → Mounts → Run Vfs A → Run Mounts A
back_vfs s (done a v) = done a (record s { vfs = v })
back_vfs s fault = fault
back_vfs s out_of_fuel = out_of_fuel

-- a call on the table of mounts, and a call on the vnodes
pub on_mounts : {A : Type 0} → Prog World A → M A
on_mounts m s = back_table s (m s.table)

unfoldable pub on_vfs : {A : Type 0} → Prog Vfs A → M A
on_vfs m s = back_vfs s (m s.vfs)

abbrev pub or_fault : {A : Type 0} → Option A → M A
or_fault none = λ _. fault
or_fault (some a) = pure a

unfoldable pub load : Ptr → M Mount
load p s = if p == 0 then fault else or_fault (s.mounts p) s

unfoldable pub store : Ptr → Mount → M (Unit {0})
store p m = modify (λ s. record s { mounts = update s.mounts p (some m) })

-- a string with its NUL, which is the key of a mount
abbrev pub path_key : List ℕ → List ℕ
path_key path = path ++ 0 ∷ []

-- what is in `vfsp`, which was NULL before the call of hashtable_get
abbrev pub or_null : Option Ptr → Ptr
or_null none = 0
or_null (some p) = p

-- a path of none is NULL
pub vfs_from_path : ℕ → Option (List ℕ) → M Ptr
vfs_from_path fuel none = pure 0
vfs_from_path fuel (some path) = do
  (status, vfsp) ← on_mounts (hashtable_get fuel (path_key path))
  pure (or_null vfsp)

unfoldable pub vfs_from_vnode : Ptr → M Ptr
vfs_from_vnode vp =
    if vp == 0 then pure 0 else (do s ← get; v ← or_fault (s.vfs.vnodes vp); pure v.vfsp)

-- The values of a bucket and of n buckets from bucket i on, in the order of the loops.
unfoldable pub chain_values : ℕ → Ptr → M (List Ptr)
chain_values zero entry = λ _. out_of_fuel
chain_values (suc fuel) entry = if entry == 0 then pure [] else (do
  s ← get
  e ← or_fault (s.table.cells entry)
  rest ← chain_values fuel e.next
  pure (e.value ∷ rest))

unfoldable pub table_values : ℕ → ℕ → ℕ → M (List Ptr)
table_values fuel zero i = pure []
table_values fuel (suc n) i = do
  s ← get
  here ← chain_values fuel (get_or s.table.table.entries i 0)
  rest ← table_values fuel n (suc i)
  pure (here ++ rest)

-- `call_back` for the values; it does not change the table of mounts
unfoldable pub call_each : (Ptr → Prog Vfs (Unit {0})) → List Ptr → M (Unit {0})
call_each call_back [] = pure tt
call_each call_back (p ∷ ps) = do on_vfs (call_back p); call_each call_back ps

-- a call back of none is NULL
unfoldable pub vfs_for_each : ℕ → Option (Ptr → Prog Vfs (Unit {0})) → M (Unit {0})
vfs_for_each fuel none = pure tt
vfs_for_each fuel (some call_back) = do
  s ← get
  values ← table_values fuel s.table.table.capacity 0
  call_each call_back values

-- `if (vfsp && vfsp->vfs_vnode_covered == vp) return vfsp`
unfoldable pub first_covering : Ptr → List Ptr → M Ptr
first_covering vp [] = pure 0
first_covering vp (p ∷ ps) =
    if p == 0
    then first_covering vp ps
    else (do m ← load p; if m.covered == vp then pure p else first_covering vp ps)

unfoldable pub vfs_find_mounted_on_vnode : ℕ → Ptr → M Ptr
vfs_find_mounted_on_vnode fuel vp =
    if vp == 0
    then pure 0
    else (do s ← get; values ← table_values fuel s.table.table.capacity 0; first_covering vp values)

-- the operations of the file system
module _ (vfs_root : Ptr → M (ℤ × Ptr)) (vfs_mount : Ptr → Ptr → List ℕ → ℕ → M ℤ)
    (vfs_unmount : Ptr → ℕ → M ℤ) (vn_inactive : Ptr → Prog Vfs (Unit {0})) where
  -- The status and what `root` points at; `has_root` says that `root` is not NULL.
  unfoldable pub vfs_root_vnode : Ptr → Bool → M (ℤ × Ptr)
  vfs_root_vnode vfsp has_root = if vfsp == 0 then pure (einval, 0) else (do
    m ← load vfsp
    if not m.can_root || not has_root then pure (einval, 0) else (do
      (ret, root) ← vfs_root vfsp
      if is_zero ret && not (root == 0) then on_vfs (vnode_ref root) else pure tt
      pure (ret, root)))

  unfoldable pub unref_covered : ℕ → Ptr → M (Unit {0})
  unref_covered parents covered =
      if covered == 0 then pure tt else on_vfs (vnode_unref vn_inactive parents covered)

  -- the part of vfs_mount_fs behind the file system's own mount function
  unfoldable pub enter_mount : ℕ → ℕ → Ptr → Ptr → List ℕ → ℤ → M ℤ
  enter_mount fuel parents vfsp covered path ret =
      if not (is_zero ret) then (do unref_covered parents covered; pure ret) else (do
        m ← load vfsp
        let stored = take (vfs_mount_path_max - 1) path
        store vfsp (record m { mount_path = stored })
        on_mounts (hashtable_set fuel vfsp (path_key stored))
        pure (pos 0))

  -- `parents` bounds the chain of parents in vnode_unref, and `fuel` the walk along a bucket.
  unfoldable pub vfs_mount_fs : ℕ → ℕ → Ptr → Ptr → Option (List ℕ) → ℕ → M ℤ
  vfs_mount_fs fuel parents vfsp covered none flags =
      if vfsp == 0 then pure einval else (do load vfsp; pure einval)
  vfs_mount_fs fuel parents vfsp covered (some path) flags = if vfsp == 0 then pure einval else (do
    m ← load vfsp
    if not m.can_mount then pure einval else (do
      store vfsp (record m { covered = covered; flag = flags % 2 ^ 32 })
      if covered == 0 then pure tt else on_vfs (vnode_ref covered)
      ret ← vfs_mount vfsp covered path flags
      enter_mount fuel parents vfsp covered path ret))

  -- `nodeids` is the array that kmalloc gives vfs_purge_vnodes.
  unfoldable pub vfs_unmount_fs : ℕ → ℕ → Ptr → Ptr → ℕ → M ℤ
  vfs_unmount_fs fuel parents nodeids vfsp flags = if vfsp == 0 then pure einval else (do
    m ← load vfsp
    if not m.can_unmount then pure einval else (do
      ret ← vfs_unmount vfsp flags
      if not (is_zero ret) then pure ret else (do
        m ← load vfsp
        on_mounts (hashtable_remove fuel (path_key m.mount_path))
        unref_covered parents m.covered
        on_vfs (vfs_purge_vnodes vn_inactive fuel parents nodeids vfsp)
        modify (λ s. record s {
          mounts = update s.mounts vfsp none;
          freed_mounts = vfsp ∷ s.freed_mounts;
        })
        pure (pos 0))))
