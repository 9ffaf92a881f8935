-- ===== src/Fs/Vnode/Purge.antt =====
-- vfs_purge_vnodes of src/fs/vfs/vnode.c.
use goshkik_os.Prelude.Memory.{Ptr}
use goshkik_os.Prelude.Int.{ℤ}
use goshkik_os.Prelude.Run.{fault, out_of_fuel, Prog, pure, ◌>>=◌, ◌>>◌, get, modify}
use goshkik_os.Klibc.Hashtable.{World, Entry, hashtable_get, hashtable_remove}
use goshkik_os.Fs.Vnode.{M, on_table, hit, is_zero, create_vnode_key, vnode_unref}
use goshkik_os.Prelude.{
  ℕ, zero, suc, ◌+◌, ◌*◌, Option, none, some, List, [], ◌∷◌, ◌++◌, ◌==◌, if◌then◌else◌, length,
  get_or,
}

-- eight bytes as a number, the lowest first
pub word_of : ℕ → List ℕ → ℕ
word_of zero bytes = 0
word_of (suc n) [] = 0
word_of (suc n) (b ∷ bytes) = b + 256 * word_of n bytes

abbrev pub drop : ℕ → List ℕ → List ℕ
drop zero bytes = bytes
drop (suc n) [] = []
drop (suc n) (b ∷ bytes) = drop n bytes

-- `k[0]` and `k[1]` of a key
abbrev pub key_vfsp : List ℕ → Ptr
key_vfsp key = word_of 8 key

abbrev pub key_nodeid : List ℕ → ℕ
key_nodeid key = word_of 8 (drop 8 key)

-- `*entry`, a fault at NULL and where no entry stands
or_fault : Option Entry → Prog World Entry
or_fault none = λ _. fault
or_fault (some e) = pure e

-- the loop along a bucket
unfoldable pub chain_ids : ℕ → Ptr → Ptr → Prog World (List ℕ)
unfolding or_fault
chain_ids zero vfsp entry = λ _. out_of_fuel
chain_ids (suc fuel) vfsp entry = if entry == 0 then pure [] else (do
  w ← get
  e ← or_fault (w.cells entry)
  ids ← chain_ids fuel vfsp e.next
  pure (if key_vfsp e.bytes == vfsp then key_nodeid e.bytes ∷ ids else ids))

-- the loop over n buckets from bucket i on
unfoldable pub table_ids : ℕ → Ptr → ℕ → ℕ → Prog World (List ℕ)
table_ids fuel vfsp zero i = pure []
table_ids fuel vfsp (suc n) i = do
  w ← get
  here ← chain_ids fuel vfsp (get_or w.table.entries i 0)
  ids ← table_ids fuel vfsp n (suc i)
  pure (here ++ ids)

module _ (vn_inactive : Ptr → M (Unit {0})) where
  -- a node that is in the table loses the reference of the table
  abbrev pub unref_removed : ℕ → Ptr → ℤ → M (Unit {0})
  unref_removed parents vp rem = if is_zero rem then vnode_unref vn_inactive parents vp else pure tt

  abbrev pub purge_found : ℕ → ℕ → List ℕ → Option Ptr → M (Unit {0})
  purge_found fuel parents key none = do on_table (hashtable_remove fuel key); pure tt
  purge_found fuel parents key (some vp) = do
    rem ← on_table (hashtable_remove fuel key)
    unref_removed parents vp rem

  -- the loop over the collected nodes
  unfoldable pub purge_ids : ℕ → ℕ → Ptr → List ℕ → M (Unit {0})
  purge_ids fuel parents vfsp [] = pure tt
  purge_ids fuel parents vfsp (nodeid ∷ ids) = do
    let key = create_vnode_key vfsp nodeid
    found ← on_table (hashtable_get fuel key)
    purge_found fuel parents key (hit found)
    purge_ids fuel parents vfsp ids

  -- `nodeids` is what kmalloc returns for the array.
  unfoldable pub vfs_purge_vnodes : ℕ → ℕ → Ptr → Ptr → M (Unit {0})
  vfs_purge_vnodes fuel parents nodeids vfsp = if vfsp == 0 then pure tt else (do
    s ← get
    counted ← on_table (table_ids fuel vfsp s.table.table.capacity 0)
    if length counted == 0
        then pure tt
        else (if nodeids == 0 then pure tt else (do
          ids ← on_table (table_ids fuel vfsp s.table.table.capacity 0)
          purge_ids fuel parents vfsp ids
          modify (λ s. record s { freed_data = nodeids ∷ s.freed_data }))))
