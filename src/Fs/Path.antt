-- ===== src/Fs/Path.antt =====
-- src/fs/vfs/path.c: the cache of names, a hash table from a directory and a name to a vnode.
pub mod Keys
pub mod Purge
pub mod Cache
mod Tests
use goshkik_os.Prelude.Memory.{Ptr}
use goshkik_os.Prelude.Int.{ℤ, pos, negsuc}
use goshkik_os.Prelude.Run.{Run, done, fault, out_of_fuel, Prog, pure, ◌>>=◌, ◌>>◌}
use goshkik_os.Klibc.Hashtable.{World, hashtable_get, hashtable_set, hashtable_remove}
use goshkik_os.Fs.Vnode.{
  Vfs, enoent, einval, is_zero, name_max, take, bytes_of, hit, vnode_ref, vnode_unref,
}
use goshkik_os.Prelude.{
  ℕ, zero, suc, ◌+◌, ◌-◌, ◌*◌, ◌/◌, ◌%◌, ◌^◌, ◌≤◌, ◌<◌, bit_and, bit_or, bit_xor, ◌≡◌, refl, sym,
  ap, ap₂, ◌∙◌, fun_ext, subst, subst₂, ◌≢◌, ◌↔◌, ◌⊎◌, inl, inr, Bool, true, false, not, ◌&&◌, ◌||◌,
  Option, none, some, List, [], ◌∷◌, ◌++◌, map, arith, ltb, leb, ◌==◌, if◌then◌else◌, ltb→lt,
  lt→ltb, le→ltb, ltb-false, leb→le, leb-false, leb-gt, leb-true, ==_iff, ==_refl, ne→==, ==_false,
  Bool-cases, Option-cases, length, get_elem?, get_or, set, replicate, rev_onto, length-append,
  length-set, length-replicate, get_or-replicate, get_or-set, get_elem?-get_or,
}

-- the vnodes, and the table of `namecache`
pub record Names : Type 0 where
  pub vfs : Vfs
  pub entries : World

abbrev pub M : Type 0 → Type 0
M = Prog Names

abbrev pub back_names : {A : Type 0} → Names → Run World A → Run Names A
back_names s (done a w) = done a (record s { entries = w })
back_names s fault = fault
back_names s out_of_fuel = out_of_fuel

abbrev pub back_vfs : {A : Type 0} → Names → Run Vfs A → Run Names A
back_vfs s (done a v) = done a (record s { vfs = v })
back_vfs s fault = fault
back_vfs s out_of_fuel = out_of_fuel

-- a call on the table of names, and a call on the vnodes
pub on_names : {A : Type 0} → Prog World A → M A
on_names m s = back_names s (m s.entries)

pub on_vfs : {A : Type 0} → Prog Vfs A → M A
on_vfs m s = back_vfs s (m s.vfs)

-- n bytes of the stack from `from` on
pub leftover : (ℕ → ℕ) → ℕ → ℕ → List ℕ
leftover stack zero from = []
leftover stack (suc n) from = stack from ∷ leftover stack n (suc from)

-- `key->name` behind the strlcpy: the name, cut to NAME_MAX bytes, its NUL, and the bytes of the array
-- that strlcpy leaves as they are
pub name_field : (ℕ → ℕ) → List ℕ → List ℕ
name_field stack name =
    let s = take name_max name in s ++ 0 ∷ leftover stack (name_max - length s) (suc (length s))

-- `stack i` is byte i of the key's `name` before the call: the key is a local variable of the callers, and
-- none of them clears it.
pub make_namecache_key : (ℕ → ℕ) → Ptr → List ℕ → List ℕ
make_namecache_key stack dvp name = bytes_of 8 dvp ++ name_field stack name

-- the end of namecache_lookup
abbrev pub give_found : Option Ptr → M (ℤ × Option Ptr)
give_found none = pure (enoent, none)
give_found (some vp) = do on_vfs (vnode_ref vp); pure (pos 0, some vp)

-- The status, and what is written through `out_vp`; a name of none is NULL, and `has_out` says that
-- `out_vp` is not.
pub namecache_lookup : ℕ → (ℕ → ℕ) → Ptr → Option (List ℕ) → Bool → M (ℤ × Option Ptr)
namecache_lookup fuel stack dvp none has_out = pure (einval, none)
namecache_lookup fuel stack dvp (some name) has_out =
    if (dvp == 0) || not has_out then pure (einval, none) else (do
      found ← on_names (hashtable_get fuel (make_namecache_key stack dvp name))
      give_found (hit found))

module _ (vn_inactive : Ptr → Prog Vfs (Unit {0})) where
  unfoldable pub namecache_enter : ℕ → ℕ → (ℕ → ℕ) → Ptr → Option (List ℕ) → Ptr → M ℤ
  namecache_enter fuel parents stack dvp none vp = pure einval
  namecache_enter fuel parents stack dvp (some name) vp =
      if (dvp == 0) || (vp == 0) then pure einval else (do
        on_vfs (vnode_ref vp)
        status ← on_names (hashtable_set fuel vp (make_namecache_key stack dvp name))
        if is_zero status
            then pure (pos 0)
            else (do on_vfs (vnode_unref vn_inactive parents vp); pure status))

  -- `if (status == 0 && vp) vnode_unref(vp)`
  unfoldable pub drop_found : ℕ → Option Ptr → M (Unit {0})
  drop_found parents none = pure tt
  drop_found parents (some vp) = on_vfs (vnode_unref vn_inactive parents vp)

  unfoldable pub namecache_remove_locked : ℕ → ℕ → List ℕ → M (Unit {0})
  namecache_remove_locked fuel parents key = do
    found ← on_names (hashtable_get fuel key)
    drop_found parents (hit found)
    on_names (hashtable_remove fuel key)
    pure tt

  unfoldable pub namecache_remove : ℕ → ℕ → (ℕ → ℕ) → Ptr → Option (List ℕ) → M (Unit {0})
  namecache_remove fuel parents stack dvp none = pure tt
  namecache_remove fuel parents stack dvp (some name) = if dvp == 0 then pure tt else (do
    let key = make_namecache_key stack dvp name
    found ← on_names (hashtable_get fuel key)
    drop_found parents (hit found)
    on_names (hashtable_remove fuel key)
    pure tt)
