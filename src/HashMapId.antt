-- ===== src/HashMapId.antt =====
-- crates/hash-map-id/src/lib.rs: a map that hands out the ids of its entries. The `HashMap` below it
-- is an association list. `add` panics when `id_seed + 1` overflows, as a build with overflow checks
-- does, which gives `none`.
pub mod Identity
mod Examples
use lunatic.Prelude.{ℕ, ◌+◌, ◌-◌, ◌^◌, List, [], Option, none, some, Bool, ltb, ◌==◌, if◌then◌else◌}
use lunatic.Prelude.Maps

pub record HashMapId {ℓ} (T : Type ℓ) : Type ℓ where
  pub id_seed : ℕ
  pub store : List (ℕ × T)

module _ {ℓ} {T : Type ℓ} where
  pub new : HashMapId T
  new = record { id_seed = 0; store = [] }

  pub add : T → HashMapId T → Option (ℕ × HashMapId T)
  add item h =
      if ltb h.id_seed (2 ^ 64 - 1)
      then some (
        h.id_seed,
        record { id_seed = h.id_seed + 1; store = Maps.insert h.id_seed item h.store },
      )
      else none

  pub remove : ℕ → HashMapId T → Option T × HashMapId T
  remove id h = (Maps.get h.store id, record h { store = Maps.remove id h.store })

  pub get : ℕ → HashMapId T → Option T
  get id h = Maps.get h.store id

  pub len : HashMapId T → ℕ
  len h = Maps.size h.store

  pub is_empty : HashMapId T → Bool
  is_empty h = Maps.size h.store == 0
