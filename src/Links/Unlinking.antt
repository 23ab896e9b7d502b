-- ===== src/Links/Unlinking.antt =====
-- crates/lunatic-process/src/state.rs: `unlink_peer` as a change of one pair.
use lunatic.Prelude.{
  ℕ, ◌≡◌, inl, inr, refl, ap, sym, ◌∙◌, none, some, false, ◌==◌, ==_refl, arith, Option-cases,
}
use lunatic.Prelude.Maps
use lunatic.Prelude.Maps.{get-put, get-remove}
use lunatic.Links.{
  LinkRelation, LinkState, Handle, World, remove_relation, owns, remove_owned, unlink_found,
  unlink_peer,
}
use lunatic.Links.Relations.{remove-IsKeyed}
use lunatic.Links.Mutual.{IsMutual}
use lunatic.Links.Pairs.{Side, pair-IsMutual, eq_sym_false}
use lunatic.Links.Ending.{IsFaithful}

owned_removed :
    (k token : ℕ) (s : LinkState) (r : LinkRelation)
    → Maps.get s.relations k ≡ some r
    → r.token ≡ token
    → remove_owned k token s ≡ remove_relation k s
unfolding remove_owned owns
owned_removed k token s r e same = rw (e, remove_owned, owns) (rw (same, ==_refl token) refl)

-- One side of an unlinked pair.
removed-Side :
    (w w' : World) (a b k : ℕ) (s t : LinkState) (r : LinkRelation)
    → IsMutual w
    → w.states a ≡ some s
    → w'.states a ≡ some (remove_relation k s)
    → (b == a) ≡ false
    → t.process_id ≡ k
    → Maps.get s.relations k ≡ some r
    → r.peer_state ≡ b
    → Side w w' a b s t (remove_relation k s) none none
unfolding remove_relation
removed-Side w w' a b k s t r old was is apart id e to_b = record {
  was = was;
  is = is;
  apart = apart;
  same_id = refl;
  keyed = remove-IsKeyed k s.relations (old.keyed a s was);
  changed = λ q. rw id (get-remove k s.relations q);
  leads = λ m h.
      let same : m ≡ r = ground (arith, h, e, ap (Maps.get s.relations) id) in
      ap (λ (z : LinkRelation). z.peer_state) same ∙ to_b;
  matched = λ m h. absurd (ground (arith, h));
}

pub unlink_peer-IsMutual :
    (self : Handle) (peer_id : ℕ) (w : World)
    → IsFaithful w self
    → IsMutual w
    → IsMutual (unlink_peer self peer_id w).1
unfolding unlink_peer unlink_found
unlink_peer-IsMutual self peer_id w faithful old = elim (Option-cases (w.states self.address)) [
  | inl gone ↦ rw (gone, unlink_peer) old
  | inr (s, was) ↦ elim (Option-cases (Maps.get s.relations peer_id)) [
    | inl unlinked ↦ rw (was, unlinked, unlink_peer) old
    | inr (r, e) ↦
        let ret = old.returned self.address s peer_id r was e in
        let mine = owned_removed peer_id r.token s r e refl in
        let theirs =
          owned_removed self.process_id r.token ret.peer ret.back
            (ap (Maps.get ret.peer.relations) (sym (faithful s was)) ∙ ret.returns)
            ret.token_same in
        rw (was, e, unlink_peer)
          (rw (ret.found, unlink_found)
            (rw (mine, theirs)
              (rw (← faithful s was) (
                pair-IsMutual w _ self.address r.peer_state s ret.peer (remove_relation peer_id s)
                  (remove_relation s.process_id ret.peer) none none old
                  (λ c not_a not_b. rw (not_a, not_b) refl)
                  (removed-Side w _ self.address r.peer_state peer_id s ret.peer r old was
                    (rw (==_refl self.address) refl) ret.elsewhere ret.named e refl)
                  (removed-Side w _ r.peer_state self.address s.process_id ret.peer s ret.back old
                    ret.found
                    (rw (eq_sym_false r.peer_state self.address ret.elsewhere, ==_refl r.peer_state)
                      refl)
                    (eq_sym_false r.peer_state self.address ret.elsewhere) refl ret.returns
                    ret.back_to)))))
  ]
]
