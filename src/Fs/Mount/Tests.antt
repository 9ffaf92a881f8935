-- ===== src/Fs/Mount/Tests.antt =====
-- A file system that is mounted at a path, found, and unmounted.
use goshkik_os.Prelude.Memory.{Ptr, update}
use goshkik_os.Prelude.Int.{ℤ, pos}
use goshkik_os.Prelude.Run.{done, Prog, pure, Returns}
use goshkik_os.Klibc.Hashtable.{World}
use goshkik_os.Klibc.Hashtable.Chain.{Node}
use goshkik_os.Klibc.Hashtable.Table.{IsChain, IsTable, view}
use goshkik_os.Fs.Vnode.{Vfs}
use goshkik_os.Fs.Mount.{Mount, Mounts, M, vfs_from_path, vfs_mount_fs, or_null, path_key}
use goshkik_os.Fs.Mount.Table.{Leads, vfs_from_path_lem, vfs_from_path-vfs_mount_fs}
use goshkik_os.Prelude.{
  ℕ, ◌<◌, ◌≡◌, refl, subst, ◌≢◌, inl, true, none, some, List, [], ◌∷◌, arith, get_or,
}

-- one bucket, and memory for one entry
abbrev no_mounts : World
no_mounts = record {
  table = record { entry_count = 0; capacity = 1; entries = 0 ∷ [] };
  cells = λ _. none;
  cache = true;
  slabs = 120 ∷ [];
  keys = 220 ∷ [];
  freed_slabs = [];
  freed_keys = [];
}

abbrev tarfs : Mount
tarfs = record {
  can_mount = true;
  can_unmount = true;
  can_root = true;
  covered = 0;
  flag = 0;
  mount_path = [];
}

abbrev start : Mounts
start = record {
  vfs = record {
    table = no_mounts;
    vnodes = λ _. none;
    slabs = [];
    freed_vnodes = [];
    freed_data = [];
  };
  mounts = update (λ _. none) 1000 (some tarfs);
  table = no_mounts;
  freed_mounts = [];
}

abbrev no_nodes : ℕ → List Node
no_nodes j = []

first_bucket : (j : ℕ) → j < 1 → 0 ≡ j
first_bucket j h = omega arith

start-IsTable : IsTable no_mounts no_nodes
start-IsTable = (
  omega arith,
  refl,
  λ j small.
      subst (λ i. IsChain 1 i no_mounts.cells (get_or no_mounts.table.entries i 0) (no_nodes i))
        (first_bucket j small) (0, (refl, refl), tt, tt, tt),
)

-- `/` as a path
abbrev slash : List ℕ
slash = 47 ∷ []

abbrev root_of : Ptr → M (ℤ × Ptr)
root_of vfsp = pure (pos 0, 0)

abbrev mounts_well : Ptr → Ptr → List ℕ → ℕ → M ℤ
mounts_well vfsp covered path flags = pure (pos 0)

abbrev unmounts_well : Ptr → ℕ → M ℤ
unmounts_well vfsp flags = pure (pos 0)

abbrev nothing_to_do : Ptr → Prog Vfs (Unit {0})
nothing_to_do vp = pure tt

thousand : ◌≢◌ {A = ℕ} 1000 0
thousand e = ground arith

vfs_from_path_lem_example :
    vfs_from_path 1 (some slash) start ≡ done (or_null (view no_nodes 1 (path_key slash))) start
vfs_from_path_lem_example = vfs_from_path_lem start no_nodes 1 slash start-IsTable (omega arith)

vfs_from_path-vfs_mount_fs_example :
    Returns
      (vfs_mount_fs root_of mounts_well unmounts_well nothing_to_do 1 1 1000 0 (some slash) 1 start)
      (λ r s'. (r ≡ pos 0) × Leads no_mounts slash 1000 s')
vfs_from_path-vfs_mount_fs_example =
    vfs_from_path-vfs_mount_fs root_of mounts_well unmounts_well nothing_to_do 1 1 1000 0 slash 1
      start no_nodes tarfs (λ covered path flags s. (s, refl, refl, refl)) thousand refl refl
      (inl refl) (omega arith) start-IsTable (λ nz. refl) (omega arith)
