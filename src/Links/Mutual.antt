-- ===== src/Links/Mutual.antt =====
-- crates/lunatic-process/src/state.rs: both sides of every link hold it.
use lunatic.Prelude.{
  ℕ, ◌≡◌, ◌≢◌, ◌⊎◌, inl, inr, subst, List, [], ◌∷◌, none, some, true, false, ◌==◌, ==→eq, ==_refl,
  arith, Bool-cases, Option-cases,
}
use lunatic.Prelude.Maps
use lunatic.Prelude.Maps.{get-put, get-remove}
use lunatic.Links.{LinkRelation, LinkState, World, owns}
use lunatic.Links.Relations.{IsKeyed}
use lunatic.Links.Detached.{hit}

-- The other side of the relation of the state at `a` with the process `p`.
pub record Returned (w : World) (a : ℕ) (s : LinkState) (p : ℕ) (r : LinkRelation) : Type 0 where
  pub peer : LinkState
  pub back : LinkRelation
  pub found : w.states r.peer_state ≡ some peer
  pub named : peer.process_id ≡ p
  pub returns : Maps.get peer.relations s.process_id ≡ some back
  pub token_same : back.token ≡ r.token
  pub back_to : back.peer_state ≡ a
  pub elsewhere : (r.peer_state == a) ≡ false

pub record IsMutual (w : World) : Type 0 where
  pub keyed : (a : ℕ) (s : LinkState) → w.states a ≡ some s → IsKeyed s.relations
  pub returned :
      (a : ℕ) (s : LinkState) (p : ℕ) (r : LinkRelation)
      → w.states a ≡ some s
      → Maps.get s.relations p ≡ some r
      → Returned w a s p r

-- A hit is a relation of the list that the state has too.
pub hit_found :
    (x : ℕ) (rels : List (ℕ × LinkRelation)) (c : ℕ) (t : LinkState)
    → IsKeyed rels
    → hit x rels c t ≡ true
    → (p : ℕ) × (r : LinkRelation) × (Maps.get rels p ≡ some r)
      × (r.peer_state ≡ c)
      × (owns x r.token t ≡ true)
unfolding hit
hit_found x [] c t k h = absurd (ground (arith, h))
hit_found x ((p, r) ∷ rels) c t (own, k) h = elim (Bool-cases (hit x rels c t)) [
  | inr miss ↦ (
    p,
    r,
    ground (arith, ==_refl p),
    ==→eq r.peer_state c (ground (arith, h, miss)),
    ground (arith, h, miss),
  )
  | inl later ↦
      let (q, s, e, same, its) = hit_found x rels c t k later in
      (
        q,
        s,
        elim (Bool-cases (p == q)) [
          | inl first ↦
              absurd (ground (arith, subst (λ i. Maps.get rels i ≡ none) (==→eq p q first) own, e))
          | inr other ↦ ground (arith, other, e)
        ],
        same,
        its,
      )
]

pub get_hit :
    (x : ℕ) (rels : List (ℕ × LinkRelation)) (p : ℕ) (r : LinkRelation) (t : LinkState)
    → Maps.get rels p ≡ some r
    → owns x r.token t ≡ true
    → hit x rels r.peer_state t ≡ true
unfolding hit
get_hit x [] p r t e its = absurd (ground (arith, e))
get_hit x ((q, s) ∷ rels) p r t e its = elim (Bool-cases (q == p)) [
  | inl same ↦
      let first : s ≡ r = ground (arith, e, same) in
      rw first (ground (arith, its, ==_refl r.peer_state))
  | inr other ↦ ground (arith, get_hit x rels p r t (ground (arith, e, other)) its)
]

pub owns_token :
    (x token : ℕ) (t : LinkState) (r : LinkRelation)
    → Maps.get t.relations x ≡ some r
    → (owns x token t ≡ true) ⊎ (r.token ≢ token)
unfolding owns
owns_token x token t r e = elim (Bool-cases (r.token == token)) [
  | inl same ↦ inl (ground (arith, e, same))
  | inr other ↦ inr (λ same. absurd (ground (arith, other, same, ==_refl token)))
]

pub owns_relation :
    (x token : ℕ) (t : LinkState)
    → owns x token t ≡ true
    → (r : LinkRelation) × (Maps.get t.relations x ≡ some r) × (r.token ≡ token)
unfolding owns
owns_relation x token t h = elim (Option-cases (Maps.get t.relations x)) [
  | inl absent ↦ absurd (ground (arith, h, absent))
  | inr (r, e) ↦ (r, e, ==→eq r.token token (ground (arith, h, e)))
]
