-- ===== src/HashMapId/Identity.antt =====
-- The ids that a `HashMapId` hands out.
use lunatic.Prelude.{
  ℕ, zero, suc, ◌+◌, ◌-◌, ◌^◌, ◌≤◌, ◌<◌, ◌≡◌, refl, List, [], ◌∷◌, Option, none, some, arith,
  ==_refl,
}
use lunatic.Prelude.Maps
use lunatic.Prelude.Maps.{get-remove, get-insert, size-insert_new}
use lunatic.HashMapId.{HashMapId, add, remove, get, len}

pub data Call (T : Type 0) : Type 0 where
  adds : T → Call T
  removes : ℕ → Call T

-- `n` numbers from `start`.
unfoldable pub ids_from : ℕ → ℕ → List ℕ
ids_from start zero = []
ids_from start (suc n) = start ∷ ids_from (suc start) n

module _ {T : Type 0} where
  -- No entry has an id that is still to be handed out.
  unfoldable pub IsFresh : HashMapId T → Type 0
  IsFresh h = (id : ℕ) → h.id_seed ≤ id → get id h ≡ none

  -- How many ids a run hands out, and which, in their order.
  unfoldable pub added : List (Call T) → ℕ
  added [] = 0
  added (adds item ∷ calls) = suc (added calls)
  added (removes id ∷ calls) = added calls

  unfoldable pub run : List (Call T) → HashMapId T → Option (List ℕ × HashMapId T)
  run [] h = some ([], h)
  run (adds item ∷ calls) h = elim (add item h) [
    | none ↦ none
    | some (id, h') ↦ elim (run calls h') [ none ↦ none | some (ids, h'') ↦ some (id ∷ ids, h'') ]
  ]
  run (removes id ∷ calls) h = run calls (remove id h).1

  -- In a map without entries at ids still to be handed out, what is added gets an id that no entry
  -- has, is found under it and then removed under it, and adding and removing it changes no other
  -- entry; the number of entries grows by one in between.
  pub remove-add :
      (item : T) (h h' : HashMapId T) (id : ℕ)
      → IsFresh h
      → add item h ≡ some (id, h')
      → (get id h ≡ none)
        × (get id h' ≡ some item)
        × (len h' ≡ suc (len h))
        × ((remove id h').0 ≡ some item)
        × ((j : ℕ) → get j (remove id h').1 ≡ get j h)
  unfolding add remove get len IsFresh
  remove-add item h h' id fresh e =
      let own : id ≡ h.id_seed = ground arith in
      let next : h'
          ≡ record { id_seed = h.id_seed + 1; store = Maps.insert h.id_seed item h.store } =
        ground arith in
      let free : Maps.get h.store h.id_seed ≡ none = fresh h.id_seed (omega arith) in
      rw (own, next)
        (
          free,
          ground (arith, ==_refl h.id_seed),
          size-insert_new h.id_seed item h.store free,
          ground (arith, ==_refl h.id_seed),
          λ j. ground (
            arith,
            get-remove h.id_seed (Maps.insert h.id_seed item h.store) j,
            free,
            ==_refl h.id_seed,
            get-insert h.id_seed item h.store j,
          ),
        )

  add_lem :
      (item : T) (h : HashMapId T)
      → h.id_seed < 2 ^ 64 - 1
      → add item h
        ≡ some (
          h.id_seed,
          record { id_seed = suc h.id_seed; store = Maps.insert h.id_seed item h.store },
        )
  unfolding add
  add_lem item h room = ground arith

  add-IsFresh :
      (item : T) (h : HashMapId T)
      → IsFresh h
      → IsFresh (record { id_seed = suc h.id_seed; store = Maps.insert h.id_seed item h.store })
  unfolding IsFresh get
  add-IsFresh item h fresh = λ id le. ground (arith, fresh id, get-insert h.id_seed item h.store id)

  remove-IsFresh : (id : ℕ) (h : HashMapId T) → IsFresh h → IsFresh (remove id h).1
  unfolding IsFresh get remove
  remove-IsFresh id h fresh = λ j le. ground (arith, fresh j, get-remove id h.store j)

  -- A run whose additions leave ids over never panics. It hands out each number once, in order from
  -- the first that was left, whatever is removed in between, and no entry after it has an id that
  -- is still to be handed out.
  pub run-ids :
      (calls : List (Call T)) (h : HashMapId T)
      → IsFresh h
      → h.id_seed + added calls < 2 ^ 64
      → (h' : HashMapId T) × (run calls h ≡ some (ids_from h.id_seed (added calls), h'))
        × (h'.id_seed ≡ h.id_seed + added calls)
        × IsFresh h'
  unfolding run added ids_from remove
  run-ids [] h fresh room = (h, refl, omega arith, fresh)
  run-ids (adds item ∷ calls) h fresh room =
      let (h', e, seed, fresh') =
        run-ids calls
          (record { id_seed = suc h.id_seed; store = Maps.insert h.id_seed item h.store })
          (add-IsFresh item h fresh) (omega (arith, room)) in
      (h', rw (add_lem item h (omega (arith, room)), e, run) refl, omega (arith, seed), fresh')
  run-ids (removes id ∷ calls) h fresh room =
      run-ids calls (remove id h).1 (remove-IsFresh id h fresh) room
