-- ===== src/Klibc/Hashtable/Tests.antt =====
-- Runs of the hash table on one bucket with two entries.
use goshkik_os.Klibc.Hashtable.{fnv_from, hashtable_destroy}
use goshkik_os.Klibc.Hashtable.Lookup.{hashtable_get_lem}
use goshkik_os.Klibc.Hashtable.Set.{Stored, hashtable_set_lem}
use goshkik_os.Klibc.Hashtable.Remove.{Removed, hashtable_remove_lem}
use goshkik_os.Klibc.Hashtable.Ends.{Destroyed, hashtable_destroy_lem}
use goshkik_os.Prelude.Memory.{update}
use goshkik_os.Prelude.Run.{done, Returns}
use goshkik_os.Prelude.Int.{pos}
use goshkik_os.Klibc.Hashtable.{World, fnv1ahash, hashtable_get, hashtable_set, hashtable_remove}
use goshkik_os.Klibc.Hashtable.Chain.{Node, entry_of}
use goshkik_os.Klibc.Hashtable.Table.{IsChain, IsTable}
use goshkik_os.Prelude.{ℕ, ◌<◌, ◌≡◌, refl, subst, true, none, some, List, [], ◌∷◌, arith, get_or}

abbrev node_a : Node
node_a = record { at = 100; key = 200; bytes = (97 ∷ []); value = 5 }

abbrev node_b : Node
node_b = record { at = 110; key = 210; bytes = (98 ∷ []); value = 6 }

abbrev two_entries : World
two_entries = record {
  table = record { entry_count = 2; capacity = 1; entries = (100 ∷ []) };
  cells =
      update (update (λ _. none) 100 (some (entry_of 110 0 node_a))) 110
        (some (entry_of 0 100 node_b));
  cache = true;
  slabs = (120 ∷ 130 ∷ []);
  keys = (220 ∷ []);
  freed_slabs = [];
  freed_keys = [];
}

abbrev one_chain : ℕ → List Node
one_chain j = (node_a ∷ node_b ∷ [])

below_one : (j : ℕ) → j < 1 → 0 ≡ j
below_one j h = omega arith

two_entries-IsTable : IsTable two_entries one_chain
two_entries-IsTable = (
  omega arith,
  refl,
  λ j small.
      subst
        (λ i. IsChain 1 i two_entries.cells (get_or two_entries.table.entries i 0) (one_chain i))
        (below_one j small)
        (
          110,
          (refl, λ e. ground arith, refl, (refl, λ e. ground arith, refl, (refl, refl))),
          (refl, (refl, tt)),
          (refl, (refl, tt)),
          (omega arith, (omega arith, tt)),
        ),
)

-- the published value of the 64-bit FNV-1a hash of "a"
hash_known : fnv1ahash (97 ∷ []) ≡ 0xaf63dc4c8601ec8c
unfolding fnv1ahash fnv_from
hash_known = refl

hashtable_get_lem_example : hashtable_get 3 (98 ∷ []) two_entries ≡ done (pos 0, some 6) two_entries
unfolding hashtable_get
hashtable_get_lem_example =
    hashtable_get_lem two_entries one_chain two_entries-IsTable 3 (98 ∷ []) (omega arith)

hashtable_set_lem_example :
    Returns (hashtable_set 3 9 (99 ∷ []) two_entries) (Stored two_entries one_chain (99 ∷ []) 9)
hashtable_set_lem_example =
    hashtable_set_lem two_entries one_chain two_entries-IsTable 3 (99 ∷ []) 9 (omega arith)
      (λ nz. refl)

hashtable_remove_lem_example :
    Returns (hashtable_remove 3 (97 ∷ []) two_entries) (Removed two_entries one_chain (97 ∷ []))
hashtable_remove_lem_example =
    hashtable_remove_lem two_entries one_chain two_entries-IsTable 3 (97 ∷ []) (omega arith)

hashtable_destroy_lem_example :
    Returns (hashtable_destroy 3 two_entries) (Destroyed two_entries one_chain)
hashtable_destroy_lem_example =
    hashtable_destroy_lem two_entries one_chain two_entries-IsTable 3 (λ j small. omega arith)
