-- ===== src/Klibc/Hashtable.antt =====
-- src/klibc/kmem/hashtable.c: buckets of entries that are linked both ways, on a heap of entries.
pub mod Chain
pub mod Keys
pub mod Table
pub mod Lookup
pub mod Update
pub mod Insert
pub mod Set
pub mod Unlink
pub mod Remove
pub mod Ends
mod Tests
use goshkik_os.Prelude.Memory.{Ptr, update}
use goshkik_os.Prelude.Int.{ℤ, pos, negsuc}
use goshkik_os.Prelude.Run.{Run, done, fault, out_of_fuel, Prog, pure, ◌>>=◌, ◌>>◌, get, modify}
use goshkik_os.Prelude.{
  ℕ, zero, suc, ◌+◌, ◌-◌, ◌*◌, ◌/◌, ◌%◌, ◌^◌, ◌≤◌, ◌<◌, bit_and, bit_or, bit_xor, ◌≡◌, refl, sym,
  ap, ap₂, ◌∙◌, fun_ext, subst, subst₂, ◌≢◌, ◌↔◌, ◌⊎◌, inl, inr, Bool, true, false, not, ◌&&◌, ◌||◌,
  Option, none, some, List, [], ◌∷◌, ◌++◌, map, arith, ltb, leb, ◌==◌, if◌then◌else◌, ltb→lt,
  lt→ltb, le→ltb, ltb-false, leb→le, leb-false, leb-gt, ==_iff, ==_refl, ne→==, ==_false,
  Bool-cases, Option-cases, length, get_elem?, get_or, set, replicate, length-append, length-set,
  length-replicate, get_or-replicate, get_or-set,
}

-- `FNV1PRIME` and `FNV1OFFSET`
abbrev pub fnv1prime : ℕ
fnv1prime = 0x100000001b3

abbrev pub fnv1offset : ℕ
fnv1offset = 0xcbf29ce484222325

-- the loop of fnv1ahash over the bytes that are left
pub fnv_from : ℕ → List ℕ → ℕ
fnv_from h [] = h
fnv_from h (b ∷ bs) = fnv_from (bit_xor h b * fnv1prime % 2 ^ 64) bs

pub fnv1ahash : List ℕ → ℕ
unfolding fnv_from
fnv1ahash bytes = fnv_from fnv1offset bytes

-- `hash_entry_t`. `key` is the address of the entry's own copy of its key, and `bytes` is what stands
-- there: only the memcpy of hashtable_set writes it.
pub record Entry : Type 0 where
  pub next : Ptr
  pub prev : Ptr
  pub hash : ℕ
  pub key_size : ℕ
  pub key : Ptr
  pub bytes : List ℕ
  pub value : ℕ

-- `hashtable_t`; `entries` is empty where the pointer is NULL
pub record Hashtable : Type 0 where
  pub entry_count : ℕ
  pub capacity : ℕ
  pub entries : List Ptr

-- A table, the entries in memory, whether hash_entry_cache is there, and the allocators: what the next
-- calls of slab_alloc and of kmalloc return (NULL when the list is empty), and what was given back to
-- slab_free and to kfree, latest first.
pub record World : Type 0 where
  pub table : Hashtable
  pub cells : Ptr → Option Entry
  pub cache : Bool
  pub slabs : List Ptr
  pub keys : List Ptr
  pub freed_slabs : List Ptr
  pub freed_keys : List Ptr

abbrev pub M : Type 0 → Type 0
M = Prog World

unfoldable pub load : Ptr → M Entry
load p w = if p == 0 then fault else elim (w.cells p) [ none ↦ fault | some e ↦ done e w ]

unfoldable pub store : Ptr → Entry → M (Unit {0})
store p e = modify (λ w. record w { cells = update w.cells p (some e) })

unfoldable pub set_next : Ptr → Ptr → M (Unit {0})
set_next p q = do e ← load p; store p (record e { next = q })

pub set_prev : Ptr → Ptr → M (Unit {0})
set_prev p q = do e ← load p; store p (record e { prev = q })

pub slab_alloc : M Ptr
slab_alloc w = elim w.slabs [ [] ↦ done 0 w | p ∷ ps ↦ done p (record w { slabs = ps }) ]

pub slab_free : Ptr → M (Unit {0})
slab_free p =
    modify (λ w. record w { cells = update w.cells p none; freed_slabs = p ∷ w.freed_slabs })

pub kmalloc_key : M Ptr
kmalloc_key w = elim w.keys [ [] ↦ done 0 w | p ∷ ps ↦ done p (record w { keys = ps }) ]

pub kfree_key : Ptr → M (Unit {0})
kfree_key p = modify (λ w. record w { freed_keys = p ∷ w.freed_keys })

-- `memcmp(a, b, n) == 0` for two runs of n bytes
abbrev pub same_bytes : List ℕ → List ℕ → Bool
same_bytes [] [] = true
same_bytes [] (y ∷ ys) = false
same_bytes (x ∷ xs) [] = false
same_bytes (x ∷ xs) (y ∷ ys) = (x == y) && same_bytes xs ys

-- the test in the loop of get_entry
abbrev pub is_entry : Entry → List ℕ → ℕ → Bool
is_entry e key hash = (e.key_size == length key) && ((e.hash == hash) && same_bytes e.bytes key)

-- the loop of get_entry
pub find_entry : ℕ → List ℕ → ℕ → Ptr → M Ptr
find_entry zero key hash entry = λ _. out_of_fuel
find_entry (suc f) key hash entry = if entry == 0 then pure 0 else (do
  e ← load entry
  if is_entry e key hash then pure entry else find_entry f key hash e.next)

-- `table->entries[hash % table->capacity]`, a fault where the array does not reach or the capacity is 0
pub bucket : ℕ → M Ptr
bucket hash w =
    if w.table.capacity == 0
    then fault
    else elim (get_elem? w.table.entries (hash % w.table.capacity)) [
      | none ↦ fault
      | some p ↦ done p w
    ]

pub get_entry : ℕ → List ℕ → ℕ → M Ptr
get_entry fuel key hash = do p ← bucket hash; find_entry fuel key hash p

-- `table->entries[hash % table->capacity] = p`
pub set_bucket : ℕ → Ptr → M (Unit {0})
set_bucket hash p = modify (λ w. record w {
  table = record w.table { entries = set w.table.entries (hash % w.table.capacity) p };
})

-- hashtable_set for a key that is not in the table, with the allocated entry
pub insert_entry : ℕ → List ℕ → ℕ → Ptr → Ptr → M ℤ
insert_entry value key hash entry copy = do
  head ← bucket hash
  store entry (record {
    next = head;
    prev = 0;
    hash = hash;
    key_size = length key;
    key = copy;
    bytes = key;
    value = value;
  })
  if head == 0 then pure tt else set_prev head entry
  set_bucket hash entry
  modify (λ w. record w {
    table = record w.table { entry_count = (w.table.entry_count + 1) % 2 ^ 64 };
  })
  pure (pos 0)

pub hashtable_set : ℕ → ℕ → List ℕ → M ℤ
hashtable_set fuel value key = do
  let hash = fnv1ahash key
  entry ← get_entry fuel key hash
  if entry == 0
      then (do
        entry ← slab_alloc
        if entry == 0 then pure (negsuc 0) else (do
          copy ← kmalloc_key
          if copy == 0
              then (do slab_free entry; pure (negsuc 0))
              else insert_entry value key hash entry copy))
      else (do e ← load entry; store entry (record e { value = value }); pure (pos 0))

-- the status, and what is written through `value`
pub hashtable_get : ℕ → List ℕ → M (ℤ × Option ℕ)
hashtable_get fuel key = do
  entry ← get_entry fuel key (fnv1ahash key)
  if entry == 0 then pure (negsuc 0, none) else (do e ← load entry; pure (pos 0, some e.value))

-- `if (entry->prev) … if (entry->next) …` of hashtable_remove
pub unlink_entry : ℕ → Entry → M (Unit {0})
unlink_entry hash e = do
  if e.prev == 0 then set_bucket hash e.next else set_next e.prev e.next
  if e.next == 0 then pure tt else set_prev e.next e.prev

pub hashtable_remove : ℕ → List ℕ → M ℤ
hashtable_remove fuel key = do
  let hash = fnv1ahash key
  entry ← get_entry fuel key hash
  if entry == 0 then pure (negsuc 0) else (do
    e ← load entry
    unlink_entry hash e
    kfree_key e.key
    slab_free entry
    modify (λ w. record w {
      table = record w.table { entry_count = (w.table.entry_count + 2 ^ 64 - 1) % 2 ^ 64 };
    })
    pure (pos 0))

-- the inner loop of hashtable_destroy
pub free_chain : ℕ → Ptr → M (Unit {0})
free_chain zero entry = λ _. out_of_fuel
free_chain (suc f) entry =
    if entry == 0
    then pure tt
    else (do e ← load entry; kfree_key e.key; slab_free entry; free_chain f e.next)

-- the outer loop, over the buckets that are left
pub free_buckets : ℕ → List Ptr → M (Unit {0})
free_buckets fuel [] = pure tt
free_buckets fuel (p ∷ ps) = do free_chain fuel p; free_buckets fuel ps

-- the array goes back by kfree, whose argument is not recorded
pub hashtable_destroy : ℕ → M ℤ
hashtable_destroy fuel = do
  w ← get
  free_buckets fuel w.table.entries
  modify (λ w. record w { table = record w.table { entries = []; entry_count = 0 } })
  pure (pos 0)

-- `created` and `array` say whether slab_cache_create and the kmalloc of the array succeed
pub hashtable_init : Bool → Bool → ℕ → M ℤ
hashtable_init created array size = do
  w ← get
  if w.cache || created
      then (do
        modify (λ w. record w {
          cache = true;
          table = record w.table { capacity = size; entries = [] };
        })
        if array
            then (do
              modify (λ w. record w {
                table = record w.table { entries = replicate size 0; entry_count = 0 };
              })
              pure (pos 0))
            else pure (negsuc 0))
      else pure (negsuc 0)
