-- ===== src/Links/Relations.antt =====
-- The relations of one side of a link: keys that stand once, and the permits they hold.
use lunatic.Prelude.{ℕ, ◌≡◌, inl, inr, refl, List, [], ◌∷◌, none, ◌==◌, arith, Bool-cases}
use lunatic.Prelude.Maps
use lunatic.Prelude.Maps.{get-put, get-remove, size-remove}
use lunatic.Links.{LinkRelation}

abbrev pub IsKeyed : List (ℕ × LinkRelation) → Type 0
IsKeyed [] = Unit
IsKeyed ((p, r) ∷ m) = (Maps.get m p ≡ none) × IsKeyed m

pub put-IsKeyed :
    (k : ℕ) (v : LinkRelation) (m : List (ℕ × LinkRelation)) → IsKeyed m → IsKeyed (Maps.put k v m)
put-IsKeyed k v [] h = (refl, tt)
put-IsKeyed k v ((j, w) ∷ m) (own, h) = elim (Bool-cases (j == k)) [
  | inl same ↦ rw same (ground (arith, own, same), h)
  | inr other ↦ rw other (ground (arith, get-put k v m j, own, other), put-IsKeyed k v m h)
]

pub remove-IsKeyed : (k : ℕ) (m : List (ℕ × LinkRelation)) → IsKeyed m → IsKeyed (Maps.remove k m)
remove-IsKeyed k [] h = tt
remove-IsKeyed k ((j, w) ∷ m) (own, h) = elim (Bool-cases (j == k)) [
  | inl same ↦ rw same (remove-IsKeyed k m h)
  | inr other ↦ rw other (ground (arith, get-remove k m j, own), remove-IsKeyed k m h)
]
