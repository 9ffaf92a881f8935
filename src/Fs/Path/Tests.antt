-- ===== src/Fs/Path/Tests.antt =====
-- Runs of the name cache with one name in it.
use goshkik_os.Prelude.Memory.{Ptr, update}
use goshkik_os.Prelude.Int.{pos}
use goshkik_os.Prelude.Run.{done}
use goshkik_os.Klibc.Hashtable.{World}
use goshkik_os.Klibc.Hashtable.Chain.{Node, entry_of}
use goshkik_os.Klibc.Hashtable.Table.{IsChain, IsTable}
use goshkik_os.Fs.Vnode.{Vnode, enoent}
use goshkik_os.Fs.Vnode.Cache.{referenced}
use goshkik_os.Fs.Path.{Names, leftover, name_field, make_namecache_key, namecache_lookup}
use goshkik_os.Fs.Path.Cache.{named, namecache_lookup_cases}
use goshkik_os.Fs.Path.Keys.{make_namecache_key-leftover}
use goshkik_os.Klibc.Hashtable.Keys.{same_bytes_refl}
use goshkik_os.Prelude.{
  ◌==◌, if◌then◌else◌, ℕ, ◌<◌, ◌≡◌, refl, sym, ◌∙◌, subst, ◌≢◌, ◌⊎◌, true, false, none, some, List,
  [], ◌∷◌, arith, get_or,
}

abbrev cleared : ℕ → ℕ
cleared i = 0

-- the name "a" in the directory at 500
abbrev entry_a : Node
entry_a = record {
  at = 100;
  key = 200;
  bytes = make_namecache_key cleared 500 (97 ∷ []);
  value = 600;
}

abbrev file_vnode : Vnode
file_vnode = record {
  freeing = false;
  count = 1;
  inactive = false;
  parent = 500;
  name = 97 ∷ [];
  vfsp = 1000;
  kind = 1;
  data_ptr = 0;
}

abbrev one_name : Names
one_name = record {
  vfs = record {
    table = empty_table;
    vnodes = update (λ _. none) 600 (some file_vnode);
    slabs = [];
    freed_vnodes = [];
    freed_data = [];
  };
  entries = record empty_table {
    table = record { entry_count = 1; capacity = 1; entries = 100 ∷ [] };
    cells = update (λ _. none) 100 (some (entry_of 0 0 entry_a));
  };
}
  where
    empty_table : World
    empty_table = record {
      table = record { entry_count = 0; capacity = 1; entries = 0 ∷ [] };
      cells = λ _. none;
      cache = true;
      slabs = [];
      keys = [];
      freed_slabs = [];
      freed_keys = [];
    }

abbrev name_chain : ℕ → List Node
name_chain j = entry_a ∷ []

only_bucket : (j : ℕ) → j < 1 → 0 ≡ j
only_bucket j h = omega arith

one_name-IsTable : IsTable one_name.entries name_chain
one_name-IsTable = (
  omega arith,
  refl,
  λ j small.
      subst
        (λ i.
          IsChain 1 i one_name.entries.cells (get_or one_name.entries.table.entries i 0)
            (name_chain i))
        (only_bucket j small)
        (
          100,
          (refl, λ e. ground arith, refl, (refl, refl)),
          (refl, tt),
          (refl, tt),
          (omega arith, tt),
        ),
)

directory : ◌≢◌ {A = ℕ} 500 0
directory e = ground arith

-- another byte in the place where the name goes
abbrev dirty : ℕ → ℕ
dirty i = if i == 0 then 9 else 0

same_key : make_namecache_key cleared 500 (97 ∷ []) ≡ make_namecache_key dirty 500 (97 ∷ [])
unfolding make_namecache_key name_field leftover
same_key = refl

make_namecache_key-leftover_example : cleared 9 ≡ dirty 9
make_namecache_key-leftover_example =
    make_namecache_key-leftover cleared dirty 500 (97 ∷ []) (omega arith) same_key 9 (omega arith)
      (omega arith)

abbrev key_a : List ℕ
key_a = make_namecache_key cleared 500 (97 ∷ [])

named_a : named one_name name_chain key_a ≡ some 600
named_a = rw (same_bytes_refl key_a) refl

vnode_there :
    (vp : Ptr)
    → named one_name name_chain key_a ≡ some vp
    → (v : Vnode) × (one_name.vfs.vnodes vp ≡ some v)
vnode_there vp e = (
  file_vnode,
  subst (λ p. one_name.vfs.vnodes p ≡ some file_vnode) (same 600 vp (sym named_a ∙ e)) refl,
)
  where
    same : (p q : Ptr) → some p ≡ some q → p ≡ q
    same p q e = cc

namecache_lookup_cases_example :
    ((named one_name name_chain key_a ≡ none)
      × (namecache_lookup 2 cleared 500 (some (97 ∷ [])) true one_name
          ≡ done (enoent, none) one_name))
    ⊎ ((vp : Ptr) × (v : Vnode) × (named one_name name_chain key_a ≡ some vp)
        × (one_name.vfs.vnodes vp ≡ some v)
        × (namecache_lookup 2 cleared 500 (some (97 ∷ [])) true one_name
            ≡ done (pos 0, some vp) (record one_name { vfs = referenced one_name.vfs vp v })))
namecache_lookup_cases_example =
    namecache_lookup_cases one_name name_chain one_name-IsTable 2 cleared 500 (97 ∷ []) directory
      (omega arith) vnode_there
