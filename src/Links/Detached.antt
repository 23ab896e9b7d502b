-- ===== src/Links/Detached.antt =====
-- crates/lunatic-process/src/state.rs: what the loop of `terminate` and of `Drop` leaves of every
-- process.
use lunatic.Prelude.{
  ℕ, ◌≡◌, inl, inr, refl, sym, subst, ◌∙◌, List, [], ◌∷◌, Option, none, some, Bool, true, false,
  ◌&&◌, ◌||◌, if◌then◌else◌, ◌==◌, ==→eq, ==_refl, arith, Bool-cases, Option-cases,
}
use lunatic.Prelude.Maps.{get-remove}
use lunatic.Message.{DeathReason}
use lunatic.Links.{LinkRelation, LinkState, World, put_state, remove_relation, owns, detach_all}

-- Whether one of the relations is held by the state at an address too.
unfoldable pub hit : ℕ → List (ℕ × LinkRelation) → ℕ → LinkState → Bool
hit x [] c t = false
hit x ((p, r) ∷ rels) c t = (r.peer_state == c && owns x r.token t) || hit x rels c t

unfoldable pub detached : ℕ → List (ℕ × LinkRelation) → ℕ → Option LinkState → Option LinkState
detached x rels c none = none
detached x rels c (some t) = some (if hit x rels c t then remove_relation x t else t)

owns-remove : (x token : ℕ) (t : LinkState) → owns x token (remove_relation x t) ≡ false
unfolding owns remove_relation
owns-remove x token t = ground (arith, get-remove x t.relations x, ==_refl x)

hit-remove :
    (x : ℕ) (rels : List (ℕ × LinkRelation)) (c : ℕ) (t : LinkState)
    → hit x rels c (remove_relation x t) ≡ false
unfolding hit
hit-remove x [] c t = refl
hit-remove x ((p, r) ∷ rels) c t = ground (arith, hit-remove x rels c t, owns-remove x r.token t)

detached-nil : (x c : ℕ) (o : Option LinkState) → detached x [] c o ≡ o
unfolding detached hit
detached-nil x c none = refl
detached-nil x c (some t) = refl

detached-gone :
    (x c : ℕ) (rels rels' : List (ℕ × LinkRelation))
    → detached x rels c none ≡ detached x rels' c none
unfolding detached
detached-gone x c rels rels' = refl

skipped :
    (x p : ℕ) (r : LinkRelation) (rels : List (ℕ × LinkRelation)) (c : ℕ) (o : Option LinkState)
    → (r.peer_state == c) ≡ false
    → detached x ((p, r) ∷ rels) c o ≡ detached x rels c o
unfolding detached hit
skipped x p r rels c none other = refl
skipped x p r rels c (some t) other = ground (arith, other)

not_owned :
    (x p : ℕ) (r : LinkRelation) (rels : List (ℕ × LinkRelation)) (c : ℕ) (t : LinkState)
    → owns x r.token t ≡ false
    → detached x ((p, r) ∷ rels) c (some t) ≡ detached x rels c (some t)
unfolding detached hit
not_owned x p r rels c t other = ground (arith, other)

owned :
    (x p : ℕ) (r : LinkRelation) (rels : List (ℕ × LinkRelation)) (t : LinkState)
    → owns x r.token t ≡ true
    → detached x ((p, r) ∷ rels) r.peer_state (some t)
      ≡ detached x rels r.peer_state (some (remove_relation x t))
unfolding detached hit
owned x p r rels t its = ground (arith, its, ==_refl r.peer_state, hit-remove x rels r.peer_state t)

pub detach_all-states :
    (x : ℕ) (reason : DeathReason) (rels : List (ℕ × LinkRelation)) (w : World) (c : ℕ)
    → (detach_all x reason rels w).1.states c ≡ detached x rels c (w.states c)
unfolding detach_all
detach_all-states x reason [] w c = sym (detached-nil x c (w.states c))
detach_all-states x reason ((p, r) ∷ rels) w c = elim (Option-cases (w.states r.peer_state)) [
  | inl gone ↦ rw (gone, detach_all) (detach_all-states x reason rels w c ∙ sym (absent_peer gone))
  | inr (peer, e) ↦ elim (Bool-cases (owns x r.token peer)) [
    | inr lost ↦
        rw (e, lost, detach_all) (detach_all-states x reason rels w c ∙ sym (lost_peer peer e lost))
    | inl its ↦
        rw (e, its, detach_all)
          (detach_all-states x reason rels (put_state r.peer_state (remove_relation x peer) w) c
            ∙ sym (found_peer peer e its))
  ]
]
  where
    absent_peer :
        w.states r.peer_state ≡ none
        → detached x ((p, r) ∷ rels) c (w.states c) ≡ detached x rels c (w.states c)
    absent_peer gone = elim (Bool-cases (r.peer_state == c)) [
      | inl same ↦
          subst (λ i. detached x ((p, r) ∷ rels) i (w.states i) ≡ detached x rels i (w.states i))
            (==→eq r.peer_state c same) (rw gone (detached-gone x r.peer_state _ _))
      | inr other ↦ skipped x p r rels c (w.states c) other
    ]

    lost_peer :
        (peer : LinkState)
        → w.states r.peer_state ≡ some peer
        → owns x r.token peer ≡ false
        → detached x ((p, r) ∷ rels) c (w.states c) ≡ detached x rels c (w.states c)
    lost_peer peer e lost = elim (Bool-cases (r.peer_state == c)) [
      | inl same ↦
          subst (λ i. detached x ((p, r) ∷ rels) i (w.states i) ≡ detached x rels i (w.states i))
            (==→eq r.peer_state c same) (rw e (not_owned x p r rels r.peer_state peer lost))
      | inr other ↦ skipped x p r rels c (w.states c) other
    ]

    found_peer :
        (peer : LinkState)
        → w.states r.peer_state ≡ some peer
        → owns x r.token peer ≡ true
        → detached x ((p, r) ∷ rels) c (w.states c)
          ≡ detached x rels c
              (if r.peer_state == c then some (remove_relation x peer) else w.states c)
    found_peer peer e its = elim (Bool-cases (r.peer_state == c)) [
      | inl same ↦
          subst
            (λ i.
              detached x ((p, r) ∷ rels) i (w.states i)
              ≡ detached x rels i
                  (if r.peer_state == i then some (remove_relation x peer) else w.states i))
            (==→eq r.peer_state c same) (rw (e, ==_refl r.peer_state) (owned x p r rels peer its))
      | inr other ↦ rw other (skipped x p r rels c (w.states c) other)
    ]
