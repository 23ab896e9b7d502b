-- ===== src/Links/Freshness.antt =====
-- crates/lunatic-process/src/state.rs: no link takes the token of another.
use lunatic.Prelude.{
  ℕ, ◌≡◌, inl, inr, refl, List, [], ◌∷◌, none, some, if◌then◌else◌, ◌==◌, arith, is_some,
  Bool-cases, Option-cases,
}
use lunatic.Prelude.Maps
use lunatic.Prelude.Maps.{get-remove}
use lunatic.Message.{DeathReason, no_process}
use lunatic.Links.{
  LinkRelation, LinkState, Handle, World, put_state, remove_relation, owns, remove_owned,
  unlink_found, unlink_peer, detach_all, end_state, terminate, drop_state,
}
use lunatic.Links.Detached.{detach_all-states}
use lunatic.Links.Mutual.{IsMutual}
use lunatic.Links.Tokens.{IsFresh, Before, NoneNew-IsFresh}
use lunatic.Links.Ending.{IsFaithful, ended-NoneNew}
use lunatic.Links.Linking.{both-NoneNew}

-- A side that is changed without new relations.
removed-Before :
    (w : World) (a k : ℕ) (s : LinkState)
    → w.states a ≡ some s
    → (q : ℕ) (m : LinkRelation) → Maps.get (remove_relation k s).relations q ≡ some m
    → Before w a q m
unfolding remove_relation
removed-Before w a k s was q m held = record {
  state = s;
  relation = m;
  was = was;
  held = ground (arith, held, get-remove k s.relations q);
  same_token = refl;
  same_peer = refl;
}

owned-Before :
    (w : World) (a k token : ℕ) (s : LinkState)
    → w.states a ≡ some s
    → (q : ℕ) (m : LinkRelation) → Maps.get (remove_owned k token s).relations q ≡ some m
    → Before w a q m
unfolding remove_owned
owned-Before w a k token s was q m held = elim (Bool-cases (owns k token s)) [
  | inl its ↦ removed-Before w a k s was q m (rw (its, remove_owned) at held)
  | inr other ↦ record {
    state = s;
    relation = m;
    was = was;
    held = rw (other, remove_owned) at held;
    same_token = refl;
    same_peer = refl;
  }
]

pub unlink_peer-IsFresh :
    (self : Handle) (peer_id : ℕ) (w : World)
    → IsMutual w
    → IsFresh w
    → IsFresh (unlink_peer self peer_id w).1
unfolding unlink_peer unlink_found
unlink_peer-IsFresh self peer_id w old fresh = elim (Option-cases (w.states self.address)) [
  | inl gone ↦ rw (gone, unlink_peer) fresh
  | inr (s, was) ↦ elim (Option-cases (Maps.get s.relations peer_id)) [
    | inl unlinked ↦ rw (was, unlinked, unlink_peer) fresh
    | inr (r, e) ↦
        let ret = old.returned self.address s peer_id r was e in
        rw (was, e, unlink_peer)
          (rw (ret.found, unlink_found)
            (NoneNew-IsFresh w _ (omega arith)
              (both-NoneNew w self.address r.peer_state _ _
                (owned-Before w self.address peer_id r.token s was)
                (owned-Before w r.peer_state self.process_id r.token ret.peer ret.found))
              fresh))
  ]
]

detach_all-next_token :
    (x : ℕ) (reason : DeathReason) (rels : List (ℕ × LinkRelation)) (w : World)
    → (detach_all x reason rels w).1.next_token ≡ w.next_token
unfolding detach_all
detach_all-next_token x reason [] w = refl
detach_all-next_token x reason ((p, r) ∷ rels) w = elim (Option-cases (w.states r.peer_state)) [
  | inl gone ↦ rw (gone, detach_all) (detach_all-next_token x reason rels w)
  | inr (peer, e) ↦ elim (Bool-cases (owns x r.token peer)) [
    | inr lost ↦ rw (e, lost, detach_all) (detach_all-next_token x reason rels w)
    | inl its ↦
        rw (e, its, detach_all)
          (detach_all-next_token x reason rels (put_state r.peer_state (remove_relation x peer) w))
  ]
]

pub terminate-IsFresh :
    (self : Handle) (reason : DeathReason) (w : World)
    → IsFaithful w self
    → IsMutual w
    → IsFresh w
    → IsFresh (terminate self reason w).1
unfolding terminate end_state
terminate-IsFresh self reason w faithful old fresh = elim (Option-cases (w.states self.address)) [
  | inl gone ↦ rw (gone, terminate) fresh
  | inr (s, e) ↦ elim (Bool-cases (is_some s.terminal_reason)) [
    | inl before ↦ rw (e, before, terminate) fresh
    | inr running ↦
        let w0 = put_state self.address (end_state reason s) w in
        rw (e, running, terminate)
          (rw (← faithful s e) (
            NoneNew-IsFresh w (detach_all s.process_id reason s.relations w0).1
              (omega (arith, detach_all-next_token s.process_id reason s.relations w0))
              (ended-NoneNew w (detach_all s.process_id reason s.relations w0).1 self.address s
                (some (end_state reason s)) old e (λ t h. ground (arith, h))
                (detach_all-states s.process_id reason s.relations w0))
              fresh))
  ]
]

pub drop_state-IsFresh : (a : ℕ) (w : World) → IsMutual w → IsFresh w → IsFresh (drop_state a w).1
unfolding drop_state
drop_state-IsFresh a w old fresh = elim (Option-cases (w.states a)) [
  | inl gone ↦ rw (gone, drop_state) fresh
  | inr (s, e) ↦
      let w0 : World = record w { states = λ c. if a == c then none else w.states c } in
      rw (e, drop_state)
        (NoneNew-IsFresh w (detach_all s.process_id no_process s.relations w0).1
          (omega (arith, detach_all-next_token s.process_id no_process s.relations w0))
          (ended-NoneNew w (detach_all s.process_id no_process s.relations w0).1 a s none old e
            (λ t h. absurd (ground (arith, h)))
            (detach_all-states s.process_id no_process s.relations w0))
          fresh)
]
