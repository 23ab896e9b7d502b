-- ===== src/Links/Pairs.antt =====
-- crates/lunatic-process/src/state.rs, `link_pair` and `unlink_peer`: a change of both sides of one
-- pair keeps the links mutual.
use lunatic.Prelude.{
  ℕ, ◌≡◌, inl, inr, ap, sym, subst, ◌∙◌, Option, some, false, if◌then◌else◌, ◌==◌, ==→eq, ==_refl,
  arith, Bool-cases,
}
use lunatic.Prelude.Maps
use lunatic.Prelude.Maps.{get-put, get-remove}
use lunatic.Links.{LinkRelation, LinkState, World}
use lunatic.Links.Relations.{IsKeyed}
use lunatic.Links.Mutual.{Returned, IsMutual}

-- The state `s` at `a` becomes `s'`, in which only its relation with the process of `t` at `b` may
-- have changed, to `ra`; `rb` is the relation of the other side.
pub record Side (w w' : World) (a b : ℕ) (s t s' : LinkState) (ra rb : Option LinkRelation)
    : Type 0 where
  pub was : w.states a ≡ some s
  pub is : w'.states a ≡ some s'
  pub apart : (b == a) ≡ false
  pub same_id : s'.process_id ≡ s.process_id
  pub keyed : IsKeyed s'.relations
  pub changed :
      (q : ℕ) → Maps.get s'.relations q ≡ (if t.process_id == q then ra else Maps.get s.relations q)
  pub leads : (r : LinkRelation) → Maps.get s.relations t.process_id ≡ some r → r.peer_state ≡ b
  pub matched :
      (r : LinkRelation)
      → ra ≡ some r
      → (r.peer_state ≡ b)
        × (r' : LinkRelation) × (rb ≡ some r')
        × (r'.token ≡ r.token)
        × (r'.peer_state ≡ a)

pub eq_sym_false : (a b : ℕ) → (a == b) ≡ false → (b == a) ≡ false
eq_sym_false a b h = ground (arith, h)

module _ (w w' : World) (a b : ℕ) (s t s' t' : LinkState) (ra rb : Option LinkRelation)
    (old : IsMutual w)
    (others : (c : ℕ) → (a == c) ≡ false → (b == c) ≡ false → w'.states c ≡ w.states c)
    (left : Side w w' a b s t s' ra rb) (right : Side w w' b a t s t' rb ra) where
  side-Returned :
      (q : ℕ) (r : LinkRelation) → Maps.get s'.relations q ≡ some r → Returned w' a s' q r
  side-Returned q r e = elim (Bool-cases (t.process_id == q)) [
    | inl same ↦
        let (to_b, back, e', token_same, back_to) =
          left.matched r (ground (arith, e, left.changed q, same)) in
        record {
          peer = t';
          back = back;
          found = ap w'.states to_b ∙ right.is;
          named = right.same_id ∙ ==→eq t.process_id q same;
          returns = right.changed s'.process_id ∙ rw (left.same_id, ==_refl s.process_id) e';
          token_same = token_same;
          back_to = back_to;
          elsewhere = rw to_b left.apart;
        }
    | inr other ↦
        let before : Maps.get s.relations q ≡ some r = ground (arith, e, left.changed q, other) in
        let ret = old.returned a s q r left.was before in
        record {
          peer = ret.peer;
          back = ret.back;
          found =
              others r.peer_state (eq_sym_false r.peer_state a ret.elsewhere) (not_b other ret)
              ∙ ret.found;
          named = ret.named;
          returns = rw left.same_id ret.returns;
          token_same = ret.token_same;
          back_to = ret.back_to;
          elsewhere = ret.elsewhere;
        }
  ]
    where
      not_b : (t.process_id == q) ≡ false → Returned w a s q r → (b == r.peer_state) ≡ false
      not_b other ret = elim (Bool-cases (b == r.peer_state)) [
        | inr away ↦ away
        | inl at_b ↦
            let is_t : ret.peer ≡ t =
              ground (arith, ret.found, right.was, ap w.states (==→eq b r.peer_state at_b)) in
            let named : t.process_id ≡ q =
              subst (λ (u : LinkState). u.process_id ≡ q) is_t ret.named in
            absurd (ground (arith, named, other, ==_refl q))
      ]

  -- A state that is neither of the pair, with a relation to one of them.
  third_to_side :
      (c : ℕ) (u : LinkState) (q : ℕ) (r : LinkRelation)
      → w.states c ≡ some u
      → Maps.get u.relations q ≡ some r
      → (b == c) ≡ false
      → r.peer_state ≡ a
      → Returned w' c u q r
  third_to_side c u q r there e not_b to_a =
      let ret = old.returned c u q r there e in
      let is_s : ret.peer ≡ s = ground (arith, ret.found, left.was, ap w.states to_a) in
      let returns : Maps.get s.relations u.process_id ≡ some ret.back =
        subst (λ (v : LinkState). Maps.get v.relations u.process_id ≡ some ret.back) is_s
          ret.returns in
      record {
        peer = s';
        back = ret.back;
        found = ap w'.states to_a ∙ left.is;
        named = left.same_id ∙ subst (λ (v : LinkState). v.process_id ≡ q) is_s ret.named;
        returns = left.changed u.process_id ∙ rw (unpaired not_b ret returns) returns;
        token_same = ret.token_same;
        back_to = ret.back_to;
        elsewhere = ret.elsewhere;
      }
    where
      unpaired :
          (b == c) ≡ false
          → (ret : Returned w c u q r) → Maps.get s.relations u.process_id ≡ some ret.back
          → (t.process_id == u.process_id) ≡ false
      unpaired not_b ret returns = elim (Bool-cases (t.process_id == u.process_id)) [
        | inr differ ↦ differ
        | inl same ↦
            let to_b =
              left.leads ret.back
                (ap (Maps.get s.relations) (==→eq t.process_id u.process_id same) ∙ returns) in
            absurd (ground (arith, sym to_b ∙ ret.back_to, not_b, ==_refl c))
      ]

  third-Returned :
      (c : ℕ) (u : LinkState) (q : ℕ) (r : LinkRelation)
      → w.states c ≡ some u
      → Maps.get u.relations q ≡ some r
      → (a == r.peer_state) ≡ false
      → (b == r.peer_state) ≡ false
      → Returned w' c u q r
  third-Returned c u q r there e not_a not_b =
      let ret = old.returned c u q r there e in
      record {
        peer = ret.peer;
        back = ret.back;
        found = others r.peer_state not_a not_b ∙ ret.found;
        named = ret.named;
        returns = ret.returns;
        token_same = ret.token_same;
        back_to = ret.back_to;
        elsewhere = ret.elsewhere;
      }

module _ (w w' : World) (a b : ℕ) (s t s' t' : LinkState) (ra rb : Option LinkRelation)
    (old : IsMutual w)
    (others : (c : ℕ) → (a == c) ≡ false → (b == c) ≡ false → w'.states c ≡ w.states c)
    (left : Side w w' a b s t s' ra rb) (right : Side w w' b a t s t' rb ra) where
  swapped : (c : ℕ) → (b == c) ≡ false → (a == c) ≡ false → w'.states c ≡ w.states c
  swapped c not_b not_a = others c not_a not_b

  pair-IsKeyed : (c : ℕ) (u : LinkState) → w'.states c ≡ some u → IsKeyed u.relations
  pair-IsKeyed c u e = elim (Bool-cases (a == c)) [
    | inl at_a ↦
        let is_s : s' ≡ u = ground (arith, e, left.is, ap w'.states (==→eq a c at_a)) in
        subst (λ (v : LinkState). IsKeyed v.relations) is_s left.keyed
    | inr not_a ↦ elim (Bool-cases (b == c)) [
      | inl at_b ↦
          let is_t : t' ≡ u = ground (arith, e, right.is, ap w'.states (==→eq b c at_b)) in
          subst (λ (v : LinkState). IsKeyed v.relations) is_t right.keyed
      | inr not_b ↦ old.keyed c u (sym (others c not_a not_b) ∙ e)
    ]
  ]

  pair_third :
      (c : ℕ) (u : LinkState) (q : ℕ) (r : LinkRelation)
      → w.states c ≡ some u
      → Maps.get u.relations q ≡ some r
      → (a == c) ≡ false
      → (b == c) ≡ false
      → Returned w' c u q r
  pair_third c u q r there e not_a not_b = elim (Bool-cases (a == r.peer_state)) [
    | inl to_a ↦
        third_to_side w w' a b s t s' t' ra rb old others left right c u q r there e not_b
          (sym (==→eq a r.peer_state to_a))
    | inr away ↦ elim (Bool-cases (b == r.peer_state)) [
      | inl to_b ↦
          third_to_side w w' b a t s t' s' rb ra old swapped right left c u q r there e not_a
            (sym (==→eq b r.peer_state to_b))
      | inr far ↦
          third-Returned w w' a b s t s' t' ra rb old others left right c u q r there e away far
    ]
  ]

  pub pair-IsMutual : IsMutual w'
  pair-IsMutual = record {
    keyed = pair-IsKeyed;
    returned = λ c u q r e held. elim (Bool-cases (a == c)) [
      | inl at_a ↦
          let is_s : s' ≡ u = ground (arith, e, left.is, ap w'.states (==→eq a c at_a)) in
          subst (λ i. Returned w' i u q r) (==→eq a c at_a)
            (subst (λ (v : LinkState). Returned w' a v q r) is_s
              (side-Returned w w' a b s t s' t' ra rb old others left right q r
                (ap (λ (v : LinkState). Maps.get v.relations q) is_s ∙ held)))
      | inr not_a ↦ elim (Bool-cases (b == c)) [
        | inl at_b ↦
            let is_t : t' ≡ u = ground (arith, e, right.is, ap w'.states (==→eq b c at_b)) in
            subst (λ i. Returned w' i u q r) (==→eq b c at_b)
              (subst (λ (v : LinkState). Returned w' b v q r) is_t
                (side-Returned w w' b a t s t' s' rb ra old swapped right left q r
                  (ap (λ (v : LinkState). Maps.get v.relations q) is_t ∙ held)))
        | inr not_b ↦ pair_third c u q r (sym (others c not_a not_b) ∙ e) held not_a not_b
      ]
    ];
  }
