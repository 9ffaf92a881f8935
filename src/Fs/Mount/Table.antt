-- ===== src/Fs/Mount/Table.antt =====
-- The paths of mounts against the map that the table of mounts stands for.
use goshkik_os.Prelude.Memory.{Ptr, update, update_same}
use goshkik_os.Prelude.Int.{ℤ, pos}
use goshkik_os.Prelude.Run.{done, Prog, pure, Returns}
use goshkik_os.Klibc.Hashtable.{World, fnv1ahash}
use goshkik_os.Klibc.Hashtable.Chain.{Node}
use goshkik_os.Klibc.Hashtable.Keys.{same_bytes_refl}
use goshkik_os.Klibc.Hashtable.Table.{IsTable, view}
use goshkik_os.Klibc.Hashtable.Lookup.{hashtable_get_lem}
use goshkik_os.Klibc.Hashtable.Set.{IsFresh, Stored, hashtable_set_lem}
use goshkik_os.Fs.Vnode.{Vfs, Vnode, vnode_ref}
use goshkik_os.Fs.Vnode.Keys.{take-short}
use goshkik_os.Fs.Vnode.Cache.{referenced, vnode_ref_lem}
use goshkik_os.Fs.Mount.{
  Mount, Mounts, M, on_mounts, on_vfs, load, store, path_key, or_null, vfs_from_path, enter_mount,
  vfs_mount_fs,
}
use goshkik_os.Prelude.{
  ℕ, ◌%◌, ◌^◌, ◌≤◌, ◌<◌, ◌≡◌, refl, sym, ap, ◌∙◌, subst, ◌≢◌, ◌⊎◌, inl, inr, true, false, not, none,
  some, List, ◌==◌, if◌then◌else◌, ne→==, Option-cases, length, get_or,
}

-- a path is found after the walk of its bucket
abbrev pub bucket_of : (ℕ → List Node) → World → List ℕ → List Node
bucket_of cs w path = cs (fnv1ahash (path_key path) % w.table.capacity)

-- vfs_from_path returns the file system that the table of mounts holds for the path, NULL if there is
-- none, and changes nothing.
pub vfs_from_path_lem :
    (s : Mounts) (cs : ℕ → List Node) (fuel : ℕ) (path : List ℕ)
    → IsTable s.table cs
    → length (bucket_of cs s.table path) < fuel
    → vfs_from_path fuel (some path) s
      ≡ done (or_null (view cs s.table.table.capacity (path_key path))) s
unfolding vfs_from_path on_mounts
vfs_from_path_lem s cs fuel path t enough =
    rw (hashtable_get_lem s.table cs t fuel (path_key path) enough)
      (elim (Option-cases (view cs s.table.table.capacity (path_key path))) [
        | inl e ↦ rw e refl
        | inr (v, e) ↦ rw e refl
      ])

-- The path leads to the file system, or there was no memory for its entry and it leads nowhere. Both hold
-- with fuel for the bucket.
pub record Leads (before : World) (path : List ℕ) (vfsp : Ptr) (s' : Mounts) : Type 0 where
  pub enough : ℕ
  pub found :
      ((fuel : ℕ) → enough < fuel → vfs_from_path fuel (some path) s' ≡ done vfsp s')
      ⊎ (((get_or before.slabs 0 0 ≡ 0) ⊎ (get_or before.keys 0 0 ≡ 0))
          × ((fuel : ℕ) → enough < fuel → vfs_from_path fuel (some path) s' ≡ done 0 s'))

Stored-Leads :
    (w : World) (cs : ℕ → List Node) (path : List ℕ) (vfsp : Ptr) (r : ℤ) (s' : Mounts)
    → Stored w cs (path_key path) vfsp r s'.table
    → Leads w path vfsp s'
Stored-Leads w cs path vfsp r s' (cs', t, size, inl (ok, now)) =
    let key = path_key path in
    let held : view cs' s'.table.table.capacity key ≡ some vfsp =
      ap (λ n. view cs' n key) size ∙ now key ∙ rw (same_bytes_refl key) refl in
    record {
      enough = length (bucket_of cs' s'.table path);
      found =
          inl
            (λ fuel h. vfs_from_path_lem s' cs' fuel path t h ∙ ap (λ o. done (or_null o) s') held);
    }
Stored-Leads w cs path vfsp r s' (cs', t, size, inr (failed, new, short, same)) =
    let key = path_key path in
    let held : view cs' s'.table.table.capacity key ≡ none =
      ap (λ n. view cs' n key) size ∙ same key ∙ new in
    record {
      enough = length (bucket_of cs' s'.table path);
      found = inr (
        short,
        λ fuel h. vfs_from_path_lem s' cs' fuel path t h ∙ ap (λ o. done (or_null o) s') held,
      );
    }

load_lem : (p : Ptr) (s : Mounts) (m : Mount) → p ≢ 0 → s.mounts p ≡ some m → load p s ≡ done m s
unfolding load
load_lem p s m nz at = rw (ne→== p 0 nz, at) refl

-- The file system's own mount function returns 0 and leaves the table of mounts and the record alone.
abbrev pub MountsCleanly : (Ptr → Ptr → List ℕ → ℕ → M ℤ) → Ptr → Type 0
MountsCleanly vfs_mount vfsp =
    (covered : Ptr) (path : List ℕ) (flags : ℕ) (s : Mounts)
    → (s' : Mounts) × (vfs_mount vfsp covered path flags s ≡ done (pos 0) s')
      × (s'.table ≡ s.table)
      × (s'.mounts vfsp ≡ s.mounts vfsp)

module _ (vfs_root : Ptr → M (ℤ × Ptr)) (vfs_mount : Ptr → Ptr → List ℕ → ℕ → M ℤ)
    (vfs_unmount : Ptr → ℕ → M ℤ) (vn_inactive : Ptr → Prog Vfs (Unit {0})) where
  enter_mount_lem :
      (fuel parents : ℕ) (vfsp covered : Ptr) (path : List ℕ) (s : Mounts) (cs : ℕ → List Node)
      (m : Mount)
      → vfsp ≢ 0
      → s.mounts vfsp ≡ some m
      → length path ≤ 255
      → IsTable s.table cs
      → IsFresh s.table
      → length (bucket_of cs s.table path) < fuel
      → Returns
          (enter_mount vfs_root vfs_mount vfs_unmount vn_inactive fuel parents vfsp covered path
            (pos 0)
            s)
          (λ r s'. (r ≡ pos 0) × Leads s.table path vfsp s')
  unfolding enter_mount load store on_mounts
  enter_mount_lem fuel parents vfsp covered path s cs m nz at short t fresh enough =
      let (r, w, run, st) = hashtable_set_lem s.table cs t fuel (path_key path) vfsp enough fresh in
      let s' : Mounts = record s {
        mounts = update s.mounts vfsp (some (record m { mount_path = path }));
        table = w;
      } in
      (
        pos 0,
        s',
        rw (ne→== vfsp 0 nz, at, take-short 255 path short, run) refl,
        (refl, Stored-Leads s.table cs path vfsp r s' st),
      )

  -- what vfs_mount_fs does before it calls the file system: a reference to the vnode that is covered
  abbrev Covers : Mounts → Ptr → Type 0
  Covers s covered =
      (covered ≡ 0) ⊎ ((covered ≢ 0) × ((v : Vnode) × (s.vfs.vnodes covered ≡ some v)))

  cover :
      (s : Mounts) (covered : Ptr)
      → Covers s covered
      → (v : Vfs) × ((if covered == 0 then pure tt else on_vfs (vnode_ref covered)) s
          ≡ done tt (record s { vfs = v }))
  unfolding on_vfs
  cover s covered (inl null) = (s.vfs, rw null refl)
  cover s covered (inr (nz, (v, there))) = (
    referenced s.vfs covered v,
    rw (ne→== covered 0 nz, vnode_ref_lem s.vfs covered v nz there) refl,
  )

  goes_on :
      (fuel parents : ℕ) (vfsp covered : Ptr) (path : List ℕ) (flags : ℕ) (s s2 s3 : Mounts)
      (m : Mount)
      → vfsp ≢ 0
      → s.mounts vfsp ≡ some m
      → m.can_mount ≡ true
      → (if covered == 0 then pure tt else on_vfs (vnode_ref covered)) (record s {
        mounts =
            update s.mounts vfsp (some (record m { covered = covered; flag = flags % 2 ^ 32 }));
      })
        ≡ done tt s2
      → vfs_mount vfsp covered path flags s2 ≡ done (pos 0) s3
      → vfs_mount_fs vfs_root vfs_mount vfs_unmount vn_inactive fuel parents vfsp covered
          (some path)
          flags
          s
        ≡ enter_mount vfs_root vfs_mount vfs_unmount vn_inactive fuel parents vfsp covered path
            (pos 0)
            s3
  unfolding vfs_mount_fs store
  goes_on fuel parents vfsp covered path flags s s2 s3 m nz at can run mount =
      let allowed : not m.can_mount ≡ false = ap not can in
      rw (ne→== vfsp 0 nz, load_lem vfsp s m nz at, allowed, run, mount) refl

  -- If the file system mounts cleanly, the path has at most 255 bytes, and the vnode to be covered is NULL
  -- or there, vfs_mount_fs returns 0. Then vfs_from_path finds the file system at the path; or the table
  -- of mounts had no memory for a new entry, and it finds none.
  pub vfs_from_path-vfs_mount_fs :
      (fuel parents : ℕ) (vfsp covered : Ptr) (path : List ℕ) (flags : ℕ) (s : Mounts)
      (cs : ℕ → List Node) (m : Mount)
      → MountsCleanly vfs_mount vfsp
      → vfsp ≢ 0
      → s.mounts vfsp ≡ some m
      → m.can_mount ≡ true
      → Covers s covered
      → length path ≤ 255
      → IsTable s.table cs
      → IsFresh s.table
      → length (bucket_of cs s.table path) < fuel
      → Returns
          (vfs_mount_fs vfs_root vfs_mount vfs_unmount vn_inactive fuel parents vfsp covered
            (some path)
            flags
            s)
          (λ r s'. (r ≡ pos 0) × Leads s.table path vfsp s')
  vfs_from_path-vfs_mount_fs fuel parents vfsp covered path flags s cs m clean nz at can there short
        t fresh enough =
      let m1 : Mount = record m { covered = covered; flag = flags % 2 ^ 32 } in
      let s1 : Mounts = record s { mounts = update s.mounts vfsp (some m1) } in
      let (v, run) = cover s1 covered there in
      let s2 : Mounts = record s1 { vfs = v } in
      let (s3, mount, table, mounts) = clean covered path flags s2 in
      let at' : s3.mounts vfsp ≡ some m1 = mounts ∙ update_same s.mounts vfsp (some m1) in
      let (r, s4, run', (ok, leads)) =
        enter_mount_lem fuel parents vfsp covered path s3 cs m1 nz at' short
          (subst (λ w. IsTable w cs) (sym table) t) (subst (λ w. IsFresh w) (sym table) fresh)
          (subst (λ w. length (bucket_of cs w path) < fuel) (sym table) enough) in
      (
        r,
        s4,
        goes_on fuel parents vfsp covered path flags s s2 s3 m nz at can run mount ∙ run',
        (ok, subst (λ w. Leads w path vfsp s4) table leads),
      )
