-- ===== src/Fs/Path/Purge.antt =====
-- Taking a vnode out of the name cache of src/fs/vfs/path.c.
use goshkik_os.Prelude.Memory.{Ptr}
use goshkik_os.Prelude.Run.{fault, out_of_fuel, Prog, pure, ◌>>=◌, ◌>>◌, get}
use goshkik_os.Klibc.Hashtable.{Entry}
use goshkik_os.Fs.Vnode.{Vfs}
use goshkik_os.Fs.Path.{M, namecache_remove_locked}
use goshkik_os.Prelude.{ℕ, zero, suc, not, Option, none, some, ◌==◌, if◌then◌else◌, get_or}

-- `*entry`, a fault at NULL and where no entry stands
or_fault : Option Entry → M Entry
or_fault none = λ _. fault
or_fault (some e) = pure e

module _ (vn_inactive : Ptr → Prog Vfs (Unit {0})) where
  -- `while (entry)` for bucket i: behind a removal it starts again at the head of the bucket
  pub purge_bucket : ℕ → ℕ → ℕ → Ptr → ℕ → Ptr → M (Unit {0})
  unfolding or_fault
  purge_bucket zero fuel parents vp i entry = λ _. out_of_fuel
  purge_bucket (suc rounds) fuel parents vp i entry = if entry == 0 then pure tt else (do
    s ← get
    e ← or_fault (s.entries.cells entry)
    if not (e.value == vp) then purge_bucket rounds fuel parents vp i e.next else (do
      namecache_remove_locked vn_inactive fuel parents e.bytes
      s ← get
      purge_bucket rounds fuel parents vp i (get_or s.entries.table.entries i 0)))

  -- n buckets from bucket i on
  pub purge_buckets : ℕ → ℕ → ℕ → Ptr → ℕ → ℕ → M (Unit {0})
  unfolding purge_bucket
  purge_buckets rounds fuel parents vp zero i = pure tt
  purge_buckets rounds fuel parents vp (suc n) i = do
    s ← get
    purge_bucket rounds fuel parents vp i (get_or s.entries.table.entries i 0)
    purge_buckets rounds fuel parents vp n (suc i)

  pub namecahe_purge_vnode_locked : ℕ → ℕ → ℕ → Ptr → M (Unit {0})
  unfolding purge_buckets
  namecahe_purge_vnode_locked rounds fuel parents vp =
      if vp == 0
      then pure tt
      else (do s ← get; purge_buckets rounds fuel parents vp s.entries.table.capacity 0)

  pub namecache_purge_vnode : ℕ → ℕ → ℕ → Ptr → M (Unit {0})
  unfolding namecahe_purge_vnode_locked
  namecache_purge_vnode rounds fuel parents vp =
      if vp == 0 then pure tt else namecahe_purge_vnode_locked rounds fuel parents vp
