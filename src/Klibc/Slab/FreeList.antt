-- ===== src/Klibc/Slab/FreeList.antt =====
-- The free objects of a slab, as the list that their first words link.
use goshkik_os.Prelude.Memory.{Ptr, update, update_same, update_other}
use goshkik_os.Klibc.Slab.{link_slots}
use goshkik_os.Prelude.{ℕ, zero, suc, ◌+◌, ◌≤◌, ◌<◌, ◌≡◌, refl, ◌≢◌, List, [], ◌∷◌, arith, length}

-- the objects os are linked from p on
abbrev pub FreeList : (Ptr → Ptr) → Ptr → List Ptr → Type 0
FreeList links p [] = p ≡ 0
FreeList links p (o ∷ os) = (p ≡ o) × (0 < o) × FreeList links (links o) os

abbrev pub Absent : Ptr → List Ptr → Type 0
Absent x [] = Unit
Absent x (o ∷ os) = (x ≢ o) × Absent x os

-- an object that is not in the list may be written
pub FreeList-update :
    (links : Ptr → Ptr) (x new p : Ptr) (os : List Ptr)
    → Absent x os
    → FreeList links p os
    → FreeList (update links x new) p os
FreeList-update links x new p [] away l = l
FreeList-update links x new p (o ∷ os) (ne, away) (at, positive, rest) = (
  at,
  positive,
  rw (update_other links x new o ne) (FreeList-update links x new (links o) os away rest),
)

pub FreeList-push :
    (links : Ptr → Ptr) (x p : Ptr) (os : List Ptr)
    → 0 < x
    → Absent x os
    → FreeList links p os
    → FreeList (update links x p) x (x ∷ os)
FreeList-push links x p os positive away l =
    (refl, positive, rw (update_same links x p) (FreeList-update links x p p os away l))

-- n slots from `object` on, put before os one after the other
unfoldable pub slots : ℕ → ℕ → Ptr → List Ptr → List Ptr
slots zero size object os = os
slots (suc n) size object os = slots n size (object + size) (object ∷ os)

pub length-slots :
    (n size : ℕ) (object : Ptr) (os : List Ptr) → length (slots n size object os) ≡ n + length os
unfolding slots
length-slots zero size object os = omega arith
length-slots (suc n) size object os =
    omega (arith, length-slots n size (object + size) (object ∷ os))

abbrev Below : Ptr → List Ptr → Type 0
Below x [] = Unit
Below x (o ∷ os) = (o < x) × Below x os

Below-more : (x y : ℕ) (os : List Ptr) → x ≤ y → Below x os → Below y os
Below-more x y [] h b = tt
Below-more x y (o ∷ os) h (less, b) = (omega arith, Below-more x y os h b)

Below-Absent : (x : ℕ) (os : List Ptr) → Below x os → Absent x os
Below-Absent x [] b = tt
Below-Absent x (o ∷ os) (less, b) = (λ e. absurd (omega arith), Below-Absent x os b)

link_slots-FreeList :
    (n size : ℕ) (object previous : Ptr) (links : Ptr → Ptr) (os : List Ptr)
    → 0 < object
    → 0 < size
    → Below object os
    → FreeList links previous os
    → FreeList
        (link_slots n size object previous links).1
        (link_slots n size object previous links).0
        (slots n size object os)
unfolding link_slots slots
link_slots-FreeList zero size object previous links os positive wide below l = l
link_slots-FreeList (suc n) size object previous links os positive wide below l =
    link_slots-FreeList n size (object + size) object (update links object previous) (object ∷ os)
      (omega arith) wide (omega arith, Below-more object (object + size) os (omega arith) below)
      (FreeList-push links object previous os positive (Below-Absent object os below) l)

-- linking n slots of a page leaves a list of just these
pub link_slots_lem :
    (n size : ℕ) (object : Ptr) (links : Ptr → Ptr)
    → 0 < object
    → 0 < size
    → FreeList
        (link_slots n size object 0 links).1
        (link_slots n size object 0 links).0
        (slots n size object [])
link_slots_lem n size object links positive wide =
    link_slots-FreeList n size object 0 links [] positive wide tt refl
