-- ===== src/HashMapId/Examples.antt =====
-- A `HashMapId` of three entries.
use lunatic.Prelude.{ℕ, suc, ◌≡◌, refl, [], ◌∷◌, none, some, arith}
use lunatic.HashMapId.{HashMapId, add, remove, get, len}
use lunatic.HashMapId.Identity
use lunatic.HashMapId.Identity.{Call, adds, removes, IsFresh, remove-add, run, run-ids, ids_from}

abbrev three : HashMapId ℕ
three = record { id_seed = 3; store = (2, 30) ∷ (0, 10) ∷ [] }

abbrev four : HashMapId ℕ
four = record { id_seed = 4; store = (3, 40) ∷ (2, 30) ∷ (0, 10) ∷ [] }

three-IsFresh : IsFresh three
unfolding IsFresh get
three-IsFresh = λ id le. ground arith

remove-add_example :
    (get 3 three ≡ none)
    × (get 3 four ≡ some 40)
    × (len four ≡ suc (len three))
    × ((remove 3 four).0 ≡ some 40)
    × ((j : ℕ) → get j (remove 3 four).1 ≡ get j three)
unfolding add
remove-add_example = remove-add 40 three four 3 three-IsFresh refl

run-ids_example :
    (h' : HashMapId ℕ) × (run (adds 40 ∷ removes 2 ∷ adds 50 ∷ []) three ≡ some (3 ∷ 4 ∷ [], h'))
    × (h'.id_seed ≡ 5)
    × IsFresh h'
unfolding ids_from Identity.added
run-ids_example = run-ids (adds 40 ∷ removes 2 ∷ adds 50 ∷ []) three three-IsFresh (omega arith)
