-- ===== src/Links/Ending.antt =====
-- crates/lunatic-process/src/state.rs, `terminate` and `Drop`: the links of a process end on both
-- sides.
use lunatic.Prelude.{
  ℕ, ◌≡◌, inl, inr, refl, ap, sym, subst, ◌∙◌, [], Option, none, some, true, false, if◌then◌else◌,
  ◌==◌, ==→eq, ==_refl, arith, is_some, Bool-cases, Option-cases,
}
use lunatic.Prelude.Maps
use lunatic.Prelude.Maps.{get-remove}
use lunatic.Message.{DeathReason, no_process}
use lunatic.Links.{
  LinkRelation, LinkState, Handle, World, put_state, remove_relation, owns, end_state, terminate,
  drop_state,
}
use lunatic.Links.Relations.{IsKeyed, remove-IsKeyed}
use lunatic.Links.Detached.{hit, detached, detach_all-states}
use lunatic.Links.Tokens.{NoneNew}
use lunatic.Links.Mutual.{Returned, IsMutual, hit_found, get_hit}
use lunatic.Links.Left.{Left, lost, kept, detached-Left, Old, Left-Old, stays}

-- The end of the state `s` at `a`: of it there is `rest` without relations, or nothing.
module _ (w w0 : World) (a : ℕ) (s : LinkState) (rest : Option LinkState) (old : IsMutual w)
    (was : w.states a ≡ some s)
    (begun : (c : ℕ) → w0.states c ≡ (if a == c then rest else w.states c))
    (bare : (t : LinkState) → rest ≡ some t → t.relations ≡ []) where
  abbrev after : ℕ → Option LinkState
  after c = detached s.process_id s.relations c (if a == c then rest else w.states c)

  bare-Left :
      (t' : LinkState) (q : ℕ)
      → Left s.process_id s.relations a rest t'
      → Maps.get t'.relations q ≡ none
  bare-Left t' q left = elim (Option-cases (Maps.get t'.relations q)) [
    | inl absent ↦ absent
    | inr (r, e) ↦
        let o = Left-Old s.process_id s.relations a rest t' q r left e in
        absurd (ground (arith, ap (λ m. Maps.get m q) (bare o.old o.was), o.held))
  ]

  -- A hit at another state is a relation with `s`.
  hit_back :
      (d : ℕ) (t : LinkState)
      → w.states d ≡ some t
      → hit s.process_id s.relations d t ≡ true
      → (b : LinkRelation) × (Maps.get t.relations s.process_id ≡ some b) × (b.peer_state ≡ a)
  hit_back d t there h =
      let (p, r, e, at_d, its) = hit_found s.process_id s.relations d t (old.keyed a s was) h in
      let ret = old.returned a s p r was e in
      let same : ret.peer ≡ t = ground (arith, ret.found, at_d, there, ap w.states at_d) in
      (
        ret.back,
        subst (λ (u : LinkState). Maps.get u.relations s.process_id ≡ some ret.back) same
            ret.returns,
        ret.back_to,
      )

  -- A relation with `s` is a hit.
  back_hit :
      (c : ℕ) (t : LinkState) (q : ℕ) (r : LinkRelation)
      → w.states c ≡ some t
      → Maps.get t.relations q ≡ some r
      → r.peer_state ≡ a
      → (q ≡ s.process_id) × (hit s.process_id s.relations c t ≡ true)
  unfolding owns
  back_hit c t q r there e to_a =
      let ret = old.returned c t q r there e in
      let same : ret.peer ≡ s = ground (arith, ret.found, ap w.states to_a, was) in
      let q_is : q ≡ s.process_id = sym ret.named ∙ ap (λ (u : LinkState). u.process_id) same in
      let returns : Maps.get s.relations t.process_id ≡ some ret.back =
        subst (λ (u : LinkState). Maps.get u.relations t.process_id ≡ some ret.back) same
          ret.returns in
      let held : Maps.get t.relations s.process_id ≡ some r =
        subst (λ i. Maps.get t.relations i ≡ some r) q_is e in
      let its : owns s.process_id ret.back.token t ≡ true =
        rw (held, owns) (rw ret.token_same (==_refl r.token)) in
      (
        q_is,
        subst (λ i. hit s.process_id s.relations i t ≡ true) ret.back_to
            (get_hit s.process_id s.relations t.process_id ret.back t returns its),
      )

  other_state :
      (c : ℕ) → (a == c) ≡ false → after c ≡ detached s.process_id s.relations c (w.states c)
  other_state c other = rw other refl

  after_returned :
      (c : ℕ) (t' : LinkState) (q : ℕ) (r : LinkRelation) (w' : World)
      → ((d : ℕ) → w'.states d ≡ after d)
      → (a == c) ≡ false
      → Old s.process_id s.relations c (w.states c) t' q r
      → Returned w' c t' q r
  after_returned c t' q r w' states other o = elim (Bool-cases (a == r.peer_state)) [
    | inl to_a ↦
        let (q_is, there) = back_hit c o.old q r o.was o.held (sym (==→eq a r.peer_state to_a)) in
        elim o.apart [
          | inl absent ↦ absurd (ground (arith, there, absent))
          | inr differ ↦ absurd (ground (arith, differ, q_is, ==_refl q))
        ]
    | inr away ↦
        let ret = old.returned c o.old q r o.was o.held in
        let (peer', e, same_id, kept_back) =
          stays s.process_id s.relations r.peer_state ret.peer o.old.process_id ret.back ret.returns
            (λ there. apart_from ret (hit_back r.peer_state ret.peer ret.found there)) in
        record {
          peer = peer';
          back = ret.back;
          found =
              states r.peer_state
              ∙ other_state r.peer_state away
              ∙ ap (detached s.process_id s.relations r.peer_state) ret.found
              ∙ e;
          named = same_id ∙ ret.named;
          returns = subst (λ i. Maps.get peer'.relations i ≡ some ret.back) o.same_id kept_back;
          token_same = ret.token_same;
          back_to = ret.back_to;
          elsewhere = ret.elsewhere;
        }
  ]
    where
      apart_from :
          (ret : Returned w c o.old q r)
          → ((b : LinkRelation) × (Maps.get ret.peer.relations s.process_id ≡ some b)
              × (b.peer_state ≡ a))
          → (s.process_id == o.old.process_id) ≡ false
      apart_from ret (b, e, to_a) = elim (Bool-cases (s.process_id == o.old.process_id)) [
        | inr differ ↦ differ
        | inl same ↦
            let e' : Maps.get ret.peer.relations s.process_id ≡ some ret.back =
              subst (λ i. Maps.get ret.peer.relations i ≡ some ret.back)
                (sym (==→eq s.process_id o.old.process_id same)) ret.returns in
            let is_b : b ≡ ret.back = ground (arith, e, e') in
            let c_is : a ≡ c =
              sym to_a ∙ ap (λ (z : LinkRelation). z.peer_state) is_b ∙ ret.back_to in
            absurd (ground (arith, other, c_is, ==_refl c))
      ]

  Left-IsKeyed :
      (c : ℕ) (o : Option LinkState) (t' : LinkState)
      → ((t : LinkState) → o ≡ some t → IsKeyed t.relations)
      → Left s.process_id s.relations c o t'
      → IsKeyed t'.relations
  unfolding remove_relation
  Left-IsKeyed c _ t' k (kept absent) = k t' refl
  Left-IsKeyed c _ _ k (lost {t = t} there) = remove-IsKeyed s.process_id t.relations (k t refl)

  rest-IsKeyed :
      (c : ℕ) (t : LinkState) → (if a == c then rest else w.states c) ≡ some t → IsKeyed t.relations
  rest-IsKeyed c t e = elim (Bool-cases (a == c)) [
    | inl here ↦ subst IsKeyed (sym (bare t (ground (arith, e, here)))) tt
    | inr other ↦ old.keyed c t (ground (arith, e, other))
  ]

  pub ended-IsMutual : (w' : World) → ((d : ℕ) → w'.states d ≡ after d) → IsMutual w'
  ended-IsMutual w' states = record {
    keyed = λ c t' e. Left-IsKeyed c _ t' (rest-IsKeyed c) (left c t' e);
    returned = λ c t' q r e held. elim (Bool-cases (a == c)) [
      | inl here ↦ absurd (
          ground (
            arith,
            held,
            bare-Left t' q (
                rw (==_refl a) at (
                  subst
                    (λ i. Left s.process_id s.relations i (if a == i then rest else w.states i) t')
                    (sym (==→eq a c here)) (left c t' e))),
          ))
      | inr other ↦
          after_returned c t' q r w' states other (
            Left-Old s.process_id s.relations c (w.states c) t' q r (rw other at (left c t' e))
              held)
    ];
  }
    where
      left :
          (c : ℕ) (t' : LinkState)
          → w'.states c ≡ some t'
          → Left s.process_id s.relations c (if a == c then rest else w.states c) t'
      left c t' e = detached-Left s.process_id s.relations c _ t' (sym (states c) ∙ e)

-- A handle is of the process whose state it leads to.
abbrev pub IsFaithful : World → Handle → Type 0
IsFaithful w h = (s : LinkState) → w.states h.address ≡ some s → s.process_id ≡ h.process_id

pub terminate-IsMutual :
    (self : Handle) (reason : DeathReason) (w : World)
    → IsFaithful w self
    → IsMutual w
    → IsMutual (terminate self reason w).1
unfolding terminate end_state
terminate-IsMutual self reason w faithful old = elim (Option-cases (w.states self.address)) [
  | inl gone ↦ rw (gone, terminate) old
  | inr (s, e) ↦ elim (Bool-cases (is_some s.terminal_reason)) [
    | inl before ↦ rw (e, before, terminate) old
    | inr running ↦
        let w0 = put_state self.address (end_state reason s) w in
        rw (e, running, terminate)
          (rw (← faithful s e) (
            ended-IsMutual w w0 self.address s (some (end_state reason s)) old e (λ c. refl)
              (λ t h. ground (arith, h)) _ (detach_all-states s.process_id reason s.relations w0)))
  ]
]

pub drop_state-IsMutual : (a : ℕ) (w : World) → IsMutual w → IsMutual (drop_state a w).1
unfolding drop_state
drop_state-IsMutual a w old = elim (Option-cases (w.states a)) [
  | inl gone ↦ rw (gone, drop_state) old
  | inr (s, e) ↦
      let w0 : World = record w { states = λ c. if a == c then none else w.states c } in
      rw (e, drop_state)
        (ended-IsMutual w w0 a s none old e (λ c. refl) (λ t h. absurd (ground (arith, h))) _
          (detach_all-states s.process_id no_process s.relations w0))
]

-- No relation is new after the end of a process.
pub ended-NoneNew :
    (w w' : World) (a : ℕ) (s : LinkState) (rest : Option LinkState)
    → IsMutual w
    → w.states a ≡ some s
    → ((t : LinkState) → rest ≡ some t → t.relations ≡ [])
    → ((d : ℕ)
        → w'.states d ≡ detached s.process_id s.relations d (if a == d then rest else w.states d))
    → NoneNew w w'
ended-NoneNew w w' a s rest old was bare states c u q m e held =
    let o =
      Left-Old s.process_id s.relations c _ u q m
        (detached-Left s.process_id s.relations c _ u (sym (states c) ∙ e)) held in
    elim (Bool-cases (a == c)) [
      | inl here ↦ absurd (
          ground (
            arith,
            ap (λ n. Maps.get n q)
                (bare o.old
                  (subst (λ v. (if v then rest else w.states c) ≡ some o.old) here o.was)),
            o.held,
          ))
      | inr other ↦ record {
        state = o.old;
        relation = m;
        was = subst (λ v. (if v then rest else w.states c) ≡ some o.old) other o.was;
        held = o.held;
        same_token = refl;
        same_peer = refl;
      }
    ]

-- A process that has ended keeps no link.
pub terminated_bare :
    (self : Handle) (reason : DeathReason) (w : World) (s t : LinkState) (q : ℕ)
    → IsFaithful w self
    → IsMutual w
    → w.states self.address ≡ some s
    → is_some s.terminal_reason ≡ false
    → (terminate self reason w).1.states self.address ≡ some t
    → Maps.get t.relations q ≡ none
unfolding terminate end_state
terminated_bare self reason w s t q faithful old e running is =
    let w0 = put_state self.address (end_state reason s) w in
    let rest : Option LinkState = some (end_state reason s) in
    let left : detached s.process_id s.relations self.address rest ≡ some t =
      subst (λ o. detached s.process_id s.relations self.address o ≡ some t)
        (rw (==_refl self.address) refl)
        (sym (detach_all-states s.process_id reason s.relations w0 self.address)
          ∙ (rw (e, running, sym (faithful s e), terminate) at is)) in
    bare-Left w w0 self.address s rest old e (λ c. refl) (λ u h. ground (arith, h)) t q
      (detached-Left s.process_id s.relations self.address rest t left)
