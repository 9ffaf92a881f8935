-- ===== src/Fs/Vnode/Tests.antt =====
-- Runs of the vnode cache with one vnode in it.
use goshkik_os.Prelude.Memory.{Ptr, update}
use goshkik_os.Prelude.Run.{Returns, pure}
use goshkik_os.Klibc.Hashtable.Chain.{Node, entry_of}
use goshkik_os.Klibc.Hashtable.Table.{IsChain, IsTable}
use goshkik_os.Fs.Vnode.{Vnode, Vfs, bytes_of, create_vnode_key, vnode_cache_insert, vnode_get}
use goshkik_os.Fs.Vnode.Cache.{
  cached, Inserted, calls, Leaked, vnode_get-Leaked, vnode_cache_insert_lem,
}
use goshkik_os.Prelude.{
  ℕ, ◌<◌, ◌≡◌, refl, sym, ◌∙◌, subst, ◌≢◌, true, false, none, some, List, [], ◌∷◌, arith, get_or,
}

-- node 7 of the file system at 1000, whose vnode is at 500
abbrev root_node : Node
root_node = record { at = 100; key = 200; bytes = create_vnode_key 1000 7; value = 500 }

abbrev root_vnode : Vnode
root_vnode = record {
  freeing = false;
  count = 1;
  inactive = false;
  parent = 0;
  name = [];
  vfsp = 1000;
  kind = 2;
  data_ptr = 0;
}

abbrev mounted : Vfs
mounted = record {
  table = record {
    table = record { entry_count = 1; capacity = 1; entries = 100 ∷ [] };
    cells = update (λ _. none) 100 (some (entry_of 0 0 root_node));
    cache = true;
    slabs = 120 ∷ [];
    keys = 220 ∷ [];
    freed_slabs = [];
    freed_keys = [];
  };
  vnodes = update (λ _. none) 500 (some root_vnode);
  slabs = [];
  freed_vnodes = [];
  freed_data = [];
}

abbrev root_chain : ℕ → List Node
root_chain j = root_node ∷ []

first_bucket : (j : ℕ) → j < 1 → 0 ≡ j
first_bucket j h = omega arith

mounted-IsTable : IsTable mounted.table root_chain
mounted-IsTable = (
  omega arith,
  refl,
  λ j small.
      subst
        (λ i.
          IsChain 1 i mounted.table.cells (get_or mounted.table.table.entries i 0) (root_chain i))
        (first_bucket j small)
        (
          100,
          (refl, λ e. ground arith, refl, (refl, refl)),
          (refl, tt),
          (refl, tt),
          (omega arith, tt),
        ),
)

root_cached : cached mounted root_chain 1000 7 ≡ some 500
unfolding create_vnode_key bytes_of
root_cached = refl

thousand : ◌≢◌ {A = ℕ} 1000 0
thousand e = ground arith

five_hundred : ◌≢◌ {A = ℕ} 500 0
five_hundred e = ground arith

vnode_get-Leaked_example :
    Returns
      (calls 3 (vnode_get (λ _. pure tt) 2 3 none 1000 true 7) mounted)
      (Leaked 3 mounted 500 root_vnode)
vnode_get-Leaked_example =
    vnode_get-Leaked 3 mounted root_chain 2 1000 7 (λ _. pure tt) 3 none 500 root_vnode
      mounted-IsTable thousand (omega arith) root_cached refl (omega arith)

vnode_cache_insert_lem_example :
    Returns (vnode_cache_insert 2 1000 8 500 mounted) (Inserted mounted root_chain 1000 8 500)
vnode_cache_insert_lem_example =
    vnode_cache_insert_lem mounted root_chain mounted-IsTable 2 1000 8 thousand (omega arith) 500
      five_hundred (λ nz. refl)

root_there :
    (vp : Ptr)
    → cached mounted root_chain 1000 7 ≡ some vp
    → (v : Vnode) × (mounted.vnodes vp ≡ some v)
root_there vp e = (
  root_vnode,
  subst (λ p. mounted.vnodes p ≡ some root_vnode) (same 500 vp (sym root_cached ∙ e)) refl,
)
  where
    same : (p q : Ptr) → some p ≡ some q → p ≡ q
    same p q e = cc
