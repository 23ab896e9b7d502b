-- ===== src/External/ConcurrentMap.antt =====
-- `dashmap::DashMap<u64, V>`, as crates/lunatic-process uses it: every operation holds the lock of
-- its key's shard, so one operation on one key is one step.
use lunatic.Prelude.{ℕ, suc, ◌≡◌, refl, List, [], Option, none, some, if◌then◌else◌, ◌==◌}
use lunatic.Prelude.Maps
use lunatic.Prelude.Maps.{get-remove, get-insert, size-insert_new, size-insert_old, size-remove}

pub record ConcurrentMap (V M : Type 0) : Type 0 where
  pub empty : M
  pub get : M → ℕ → Option V
  pub insert : ℕ → V → M → M
  pub remove : ℕ → M → M
  pub len : M → ℕ
  pub get-empty : (k : ℕ) → get empty k ≡ none
  pub get-insert :
      (k : ℕ) (v : V) (m : M) (j : ℕ) → get (insert k v m) j ≡ (if k == j then some v else get m j)
  pub get-remove : (k : ℕ) (m : M) (j : ℕ) → get (remove k m) j ≡ (if k == j then none else get m j)
  pub len-empty : len empty ≡ 0
  pub len-insert_new : (k : ℕ) (v : V) (m : M) → get m k ≡ none → len (insert k v m) ≡ suc (len m)
  pub len-insert_old : (k : ℕ) (v w : V) (m : M) → get m k ≡ some w → len (insert k v m) ≡ len m
  pub len-remove : (k : ℕ) (v : V) (m : M) → get m k ≡ some v → suc (len (remove k m)) ≡ len m

-- Association lists are such a map.
abbrev pub assoc : {V : Type 0} → ConcurrentMap V (List (ℕ × V))
assoc = record {
  empty = [];
  get = Maps.get;
  insert = Maps.insert;
  remove = Maps.remove;
  len = Maps.size;
  get-empty = λ k. refl;
  get-insert = get-insert;
  get-remove = get-remove;
  len-empty = refl;
  len-insert_new = size-insert_new;
  len-insert_old = size-insert_old;
  len-remove = size-remove;
}
