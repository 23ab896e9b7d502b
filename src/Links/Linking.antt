-- ===== src/Links/Linking.antt =====
-- crates/lunatic-process/src/state.rs, `link_pair`: the sides of a link that is made or gets new
-- tags.
use lunatic.Prelude.{
  ℕ, ◌≡◌, inl, inr, refl, ap, sym, subst, ◌∙◌, Option, none, some, false, ◌==◌, ==→eq, ==_refl,
  arith, Bool-cases,
}
use lunatic.Prelude.Maps
use lunatic.Prelude.Maps.{get-put, get-remove}
use lunatic.Links.{LinkRelation, LinkState, World, put_state, retag, add_relation}
use lunatic.Links.Relations.{put-IsKeyed}
use lunatic.Links.Mutual.{IsMutual}
use lunatic.Links.Pairs.{Side}
use lunatic.Links.Tokens.{IsFresh, Before, NoneNew, Made, as_before}

-- One side of a link that was made.
pub added-Side :
    (w w' : World) (a b k : ℕ) (s t : LinkState) (r r' : LinkRelation)
    → IsMutual w
    → w.states a ≡ some s
    → w'.states a ≡ some (add_relation k r s)
    → (b == a) ≡ false
    → t.process_id ≡ k
    → Maps.get s.relations k ≡ none
    → r.peer_state ≡ b
    → r'.token ≡ r.token
    → r'.peer_state ≡ a
    → Side w w' a b s t (add_relation k r s) (some r) (some r')
unfolding add_relation
added-Side w w' a b k s t r r' old was is apart id e to_b token to_a = record {
  was = was;
  is = is;
  apart = apart;
  same_id = refl;
  keyed = put-IsKeyed k r s.relations (old.keyed a s was);
  changed = λ q. rw id (get-put k r s.relations q);
  leads = λ m h. absurd (ground (arith, h, e, ap (Maps.get s.relations) id));
  matched = λ m h.
      let same : r ≡ m = ground (arith, h) in
      (
        ap (λ (z : LinkRelation). z.peer_state) (sym same) ∙ to_b,
        r',
        refl,
        token ∙ ap (λ (z : LinkRelation). z.token) same,
        to_a,
      );
}

abbrev pub tagged : ℕ → Option ℕ → LinkRelation → LinkState → LinkState
tagged k tag l s = record s { relations = Maps.put k (record l { exit_tag = tag }) s.relations }

pub retag-tagged :
    (k : ℕ) (tag : Option ℕ) (l : LinkRelation) (s : LinkState)
    → Maps.get s.relations k ≡ some l
    → retag k tag s ≡ tagged k tag l s
unfolding retag
retag-tagged k tag l s e = rw (e, retag) refl

-- One side of a link that gets new tags.
pub tagged-Side :
    (w w' : World) (a b k : ℕ) (s t : LinkState) (tag tag' : Option ℕ) (l m : LinkRelation)
    → IsMutual w
    → w.states a ≡ some s
    → w'.states a ≡ some (tagged k tag l s)
    → (b == a) ≡ false
    → t.process_id ≡ k
    → Maps.get s.relations k ≡ some l
    → l.peer_state ≡ b
    → m.token ≡ l.token
    → m.peer_state ≡ a
    → Side w w' a b s t
        (tagged k tag l s)
        (some (record l { exit_tag = tag }))
        (some (record m { exit_tag = tag' }))
tagged-Side w w' a b k s t tag tag' l m old was is apart id e to_b token to_a = record {
  was = was;
  is = is;
  apart = apart;
  same_id = refl;
  keyed = put-IsKeyed k _ s.relations (old.keyed a s was);
  changed = λ q. rw id (get-put k (record l { exit_tag = tag }) s.relations q);
  leads = λ n h.
      let same : n ≡ l = ground (arith, h, e, ap (Maps.get s.relations) id) in
      ap (λ (z : LinkRelation). z.peer_state) same ∙ to_b;
  matched = λ n h.
      let same : record l { exit_tag = tag } ≡ n = ground (arith, h) in
      (
        ap (λ (z : LinkRelation). z.peer_state) (sym same) ∙ to_b,
        record m { exit_tag = tag' },
        refl,
        token ∙ ap (λ (z : LinkRelation). z.token) same,
        to_a,
      );
}

-- The two relations of one token lead to each other.
pub one_token :
    (w : World) (a b : ℕ) (s t : LinkState) (p q : ℕ) (l m : LinkRelation)
    → IsFresh w
    → (a == b) ≡ false
    → w.states a ≡ some s
    → w.states b ≡ some t
    → Maps.get s.relations p ≡ some l
    → Maps.get t.relations q ≡ some m
    → m.token ≡ l.token
    → l.peer_state ≡ b
one_token w a b s t p q l m fresh apart at_a at_b el em same =
    elim (fresh.one_pair a s p l b t q m at_a el at_b em same) [
      | inl is_a ↦ absurd (ground (arith, apart, is_a, ==_refl a))
      | inr is_peer ↦ sym is_peer
    ]

pub some_same : {s t : LinkState} → some s ≡ some t → s ≡ t
some_same e = ground (arith, e)

pub both-NoneNew :
    (w : World) (a b : ℕ) (s' t' : LinkState)
    → ((q : ℕ) (m : LinkRelation) → Maps.get s'.relations q ≡ some m → Before w a q m)
    → ((q : ℕ) (m : LinkRelation) → Maps.get t'.relations q ≡ some m → Before w b q m)
    → NoneNew w (put_state a s' (put_state b t' w))
both-NoneNew w a b s' t' on_a on_b c u q m e held = elim (Bool-cases (a == c)) [
  | inl at_a ↦
      let is_s : s' ≡ u = ground (arith, e, at_a) in
      subst (λ i. Before w i q m) (==→eq a c at_a)
        (on_a q m (ap (λ (v : LinkState). Maps.get v.relations q) is_s ∙ held))
  | inr not_a ↦ elim (Bool-cases (b == c)) [
    | inl at_b ↦
        let is_t : t' ≡ u = ground (arith, e, not_a, at_b) in
        subst (λ i. Before w i q m) (==→eq b c at_b)
          (on_b q m (ap (λ (v : LinkState). Maps.get v.relations q) is_t ∙ held))
    | inr not_b ↦ record {
      state = u;
      relation = m;
      was = ground (arith, e, not_a, not_b);
      held = held;
      same_token = refl;
      same_peer = refl;
    }
  ]
]

pub tagged-Before :
    (w : World) (a k : ℕ) (s : LinkState) (tag : Option ℕ) (l : LinkRelation)
    → w.states a ≡ some s
    → Maps.get s.relations k ≡ some l
    → (q : ℕ) (m : LinkRelation) → Maps.get (tagged k tag l s).relations q ≡ some m
    → Before w a q m
tagged-Before w a k s tag l was e q m held = elim (Bool-cases (k == q)) [
  | inl same ↦
      let is_m : record l { exit_tag = tag } ≡ m =
        ground (arith, held, same, get-put k (record l { exit_tag = tag }) s.relations q) in
      record {
        state = s;
        relation = l;
        was = was;
        held = subst (λ i. Maps.get s.relations i ≡ some l) (==→eq k q same) e;
        same_token = ap (λ (y : LinkRelation). y.token) is_m;
        same_peer = ap (λ (y : LinkRelation). y.peer_state) is_m;
      }
  | inr other ↦ record {
    state = s;
    relation = m;
    was = was;
    held = ground (arith, held, other, get-put k (record l { exit_tag = tag }) s.relations q);
    same_token = refl;
    same_peer = refl;
  }
]

-- A side that got a relation has it or one of before.
pub added-Made :
    (w : World) (a b c k : ℕ) (s : LinkState) (r : LinkRelation)
    → w.states c ≡ some s
    → (q : ℕ) (n : LinkRelation) → (n ≡ r → Made w a b c q n)
    → Maps.get (add_relation k r s).relations q ≡ some n
    → Made w a b c q n
unfolding add_relation
added-Made w a b c k s r was q n new held = elim (Bool-cases (k == q)) [
  | inl same ↦ new (ground (arith, held, same, get-put k r s.relations q))
  | inr other ↦ as_before (record {
    state = s;
    relation = n;
    was = was;
    held = ground (arith, held, other, get-put k r s.relations q);
    same_token = refl;
    same_peer = refl;
  })
]
