-- ===== src/Links/Notices.antt =====
-- crates/lunatic-process/src/state.rs, `terminate`: what the other sides of its links are told.
use lunatic.Prelude.{
  ℕ, ◌≡◌, ◌≢◌, inl, inr, refl, ap, sym, ◌∙◌, List, [], ◌∷◌, none, some, true, false, ◌==◌, ==→eq,
  ==_refl, arith, is_some, Bool-cases,
}
use lunatic.Prelude.Maps
use lunatic.Message.{DeathReason}
use lunatic.Links.{
  LinkRelation, LinkState, Handle, World, Notice, put_state, remove_relation, owns, detach_all,
  terminate,
}
use lunatic.Links.Relations.{IsKeyed}
use lunatic.Links.Mutual.{Returned, IsMutual}
use lunatic.Links.Ending.{IsFaithful, terminate-IsMutual, terminated_bare}

-- A notice for every relation, with its tag, to its other side.
unfoldable pub notices_of : ℕ → DeathReason → List (ℕ × LinkRelation) → List Notice
notices_of process_id reason [] = []
notices_of process_id reason ((p, r) ∷ rels) =
    record { peer = r.peer_state; process_id = process_id; exit_tag = r.exit_tag; reason = reason }
    ∷ notices_of process_id reason rels

-- The other side of a relation is there, and holds it too.
record Held (w : World) (x p : ℕ) (r : LinkRelation) : Type 0 where
  peer : LinkState
  there : w.states r.peer_state ≡ some peer
  named : peer.process_id ≡ p
  its : owns x r.token peer ≡ true

abbrev AllHeld : World → ℕ → List (ℕ × LinkRelation) → Type 0
AllHeld w x [] = Unit
AllHeld w x ((p, r) ∷ rels) = Held w x p r × AllHeld w x rels

-- A change of the state of another process keeps what is held.
still_held :
    (w : World) (x b k : ℕ) (t t' : LinkState) (rels : List (ℕ × LinkRelation))
    → w.states b ≡ some t
    → t.process_id ≡ k
    → Maps.get rels k ≡ none
    → AllHeld w x rels
    → AllHeld (put_state b t' w) x rels
still_held w x b k t t' [] at_b id absent h = tt
still_held w x b k t t' ((p, r) ∷ rels) at_b id absent (h, hs) = (
  record { peer = h.peer; there = rw (elsewhere h) h.there; named = h.named; its = h.its },
  still_held w x b k t t' rels at_b id (ground (arith, absent)) hs,
)
  where
    elsewhere : Held w x p r → (b == r.peer_state) ≡ false
    elsewhere h = elim (Bool-cases (b == r.peer_state)) [
      | inr away ↦ away
      | inl same ↦
          let is_t : h.peer ≡ t =
            ground (arith, h.there, at_b, ap w.states (==→eq b r.peer_state same)) in
          let p_is : p ≡ k = sym h.named ∙ ap (λ (y : LinkState). y.process_id) is_t ∙ id in
          absurd (ground (arith, absent, p_is, ==_refl k))
    ]

detach_all-notices :
    (x : ℕ) (reason : DeathReason) (rels : List (ℕ × LinkRelation)) (w : World)
    → IsKeyed rels
    → AllHeld w x rels
    → (detach_all x reason rels w).0 ≡ notices_of x reason rels
unfolding detach_all notices_of
detach_all-notices x reason [] w k h = refl
detach_all-notices x reason ((p, r) ∷ rels) w (own, k) (h, hs) =
    rw (h.there, h.its, detach_all)
      (ap
        (◌∷◌
          (record { peer = r.peer_state; process_id = x; exit_tag = r.exit_tag; reason = reason }))
        (detach_all-notices x reason rels _ k (
          still_held w x r.peer_state p h.peer (remove_relation x h.peer) rels h.there h.named own
            hs)))

held_relations :
    (w : World) (a : ℕ) (s s' : LinkState) (rels : List (ℕ × LinkRelation))
    → IsKeyed rels
    → ((p : ℕ) (r : LinkRelation) → Maps.get rels p ≡ some r → Returned w a s p r)
    → AllHeld (put_state a s' w) s.process_id rels
unfolding owns
held_relations w a s s' [] k h = tt
held_relations w a s s' ((p, r) ∷ rels) (own, k) h =
    let ret = h p r (ground (arith, ==_refl p)) in
    (
      record {
        peer = ret.peer;
        there = elim (Bool-cases (a == r.peer_state)) [
          | inl here ↦ absurd (ground (arith, here, ret.elsewhere))
          | inr away ↦ rw away ret.found
        ];
        named = ret.named;
        its = rw (ret.returns, owns) (rw ret.token_same (==_refl r.token));
      },
      held_relations w a s s' rels k (λ q m e. h q m (elim (Bool-cases (p == q)) [
        | inl same ↦ absurd (ground (arith, ap (Maps.get rels) (==→eq p q same), own, e))
        | inr other ↦ ground (arith, other, e)
      ])),
    )

-- In a world where every link is mutual, a process that ends for the first time, by a handle of it,
-- tells the other side of each of its links once, with the tag that the link has for it, and after
-- that every link is mutual and none leads to the process.
pub terminate-Ended :
    (self : Handle) (reason : DeathReason) (w : World) (s : LinkState)
    → IsFaithful w self
    → IsMutual w
    → w.states self.address ≡ some s
    → s.terminal_reason ≡ none
    → let (notices, w') = terminate self reason w in
      (notices ≡ notices_of self.process_id reason s.relations)
      × IsMutual w'
      × ((c : ℕ) (u : LinkState) (q : ℕ) (r : LinkRelation)
          → w'.states c ≡ some u
          → Maps.get u.relations q ≡ some r
          → r.peer_state ≢ self.address)
unfolding terminate
terminate-Ended self reason w s faithful old e running =
    let first : is_some s.terminal_reason ≡ false = ground (arith, running) in
    let after = terminate-IsMutual self reason w faithful old in
    (
      rw (e, first, terminate)
          (detach_all-notices self.process_id reason s.relations _ (old.keyed self.address s e) (
            rw (← faithful s e) (
              held_relations w self.address s _ s.relations (old.keyed self.address s e)
                (λ p r h. old.returned self.address s p r e h)))),
      after,
      λ c u q r is held. λ to_self.
          let ret = after.returned c u q r is held in
          absurd (
            ground (
              arith,
              ret.returns,
              terminated_bare self reason w s ret.peer u.process_id faithful old e first
                  (ap (terminate self reason w).1.states (sym to_self) ∙ ret.found),
            )),
    )
