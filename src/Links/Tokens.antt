-- ===== src/Links/Tokens.antt =====
-- crates/lunatic-process/src/state.rs: a link's token is that of one pair.
use lunatic.Prelude.{ℕ, ◌+◌, ◌<◌, ◌≤◌, ◌≡◌, ◌⊎◌, inl, inr, sym, ◌∙◌, some, arith}
use lunatic.Prelude.Maps
use lunatic.Links.{LinkRelation, LinkState, World}

pub record IsFresh (w : World) : Type 0 where
  pub below :
      (a : ℕ) (s : LinkState) (p : ℕ) (r : LinkRelation)
      → w.states a ≡ some s
      → Maps.get s.relations p ≡ some r
      → r.token < w.next_token
  pub one_pair :
      (a : ℕ) (s : LinkState) (p : ℕ) (r : LinkRelation) (c : ℕ) (u : LinkState) (q : ℕ)
      (m : LinkRelation)
      → w.states a ≡ some s
      → Maps.get s.relations p ≡ some r
      → w.states c ≡ some u
      → Maps.get u.relations q ≡ some m
      → m.token ≡ r.token
      → (c ≡ a) ⊎ (c ≡ r.peer_state)

-- A relation that there was, but for its tag.
pub record Before (w : World) (c q : ℕ) (m : LinkRelation) : Type 0 where
  pub state : LinkState
  pub relation : LinkRelation
  pub was : w.states c ≡ some state
  pub held : Maps.get state.relations q ≡ some relation
  pub same_token : relation.token ≡ m.token
  pub same_peer : relation.peer_state ≡ m.peer_state

abbrev pub NoneNew : World → World → Type 0
NoneNew w w' =
    (c : ℕ) (u : LinkState) (q : ℕ) (m : LinkRelation)
    → w'.states c ≡ some u
    → Maps.get u.relations q ≡ some m
    → Before w c q m

pub NoneNew-IsFresh :
    (w w' : World) → w.next_token ≤ w'.next_token → NoneNew w w' → IsFresh w → IsFresh w'
NoneNew-IsFresh w w' more none_new fresh = record {
  below = λ a s p r is e.
      let o = none_new a s p r is e in
      let under = fresh.below a o.state p o.relation o.was o.held in
      omega (arith, under, o.same_token);
  one_pair = λ a s p r c u q m is e there h same.
      let o = none_new a s p r is e in
      let n = none_new c u q m there h in
      elim (fresh.one_pair a o.state p o.relation c n.state q n.relation o.was o.held n.was n.held
        (n.same_token ∙ same ∙ sym o.same_token)) [
          | inl at_a ↦ inl at_a
          | inr at_peer ↦ inr (at_peer ∙ o.same_peer)
        ];
}

-- The relations that there are after a link was made: those of before, and the two of the link.
pub data Made (w : World) (a b : ℕ) : ℕ → ℕ → LinkRelation → Type 0 where
  as_before : {c q : ℕ} {m : LinkRelation} → Before w c q m → Made w a b c q m
  on_left :
      {c q : ℕ} {m : LinkRelation}
      → c ≡ a
      → m.peer_state ≡ b
      → m.token ≡ w.next_token
      → Made w a b c q m
  on_right :
      {c q : ℕ} {m : LinkRelation}
      → c ≡ b
      → m.peer_state ≡ a
      → m.token ≡ w.next_token
      → Made w a b c q m

old_token :
    (w : World) (c q : ℕ) (m : LinkRelation) → IsFresh w → Before w c q m → m.token < w.next_token
old_token w c q m fresh o = rw (← o.same_token) (fresh.below c o.state q o.relation o.was o.held)

Made-apart :
    (w : World) (a b c q d p : ℕ) (m r : LinkRelation)
    → IsFresh w
    → Made w a b d p r
    → Made w a b c q m
    → m.token ≡ r.token
    → (c ≡ d) ⊎ (c ≡ r.peer_state)
Made-apart w a b c q d p m r fresh (as_before o) (as_before n) same =
    elim (fresh.one_pair d o.state p o.relation c n.state q n.relation o.was o.held n.was n.held
      (n.same_token ∙ same ∙ sym o.same_token)) [
        | inl at_d ↦ inl at_d
        | inr at_peer ↦ inr (at_peer ∙ o.same_peer)
      ]
Made-apart w a b c q d p m r fresh (as_before o) (on_left e f g) same =
    absurd (omega (arith, old_token w d p r fresh o, same, g))
Made-apart w a b c q d p m r fresh (as_before o) (on_right e f g) same =
    absurd (omega (arith, old_token w d p r fresh o, same, g))
Made-apart w a b c q d p m r fresh (on_left e f g) (as_before n) same =
    absurd (omega (arith, old_token w c q m fresh n, same, g))
Made-apart w a b c q d p m r fresh (on_left e f g) (on_left e' f' g') same = inl (e' ∙ sym e)
Made-apart w a b c q d p m r fresh (on_left e f g) (on_right e' f' g') same = inr (e' ∙ sym f)
Made-apart w a b c q d p m r fresh (on_right e f g) (as_before n) same =
    absurd (omega (arith, old_token w c q m fresh n, same, g))
Made-apart w a b c q d p m r fresh (on_right e f g) (on_left e' f' g') same = inr (e' ∙ sym f)
Made-apart w a b c q d p m r fresh (on_right e f g) (on_right e' f' g') same = inl (e' ∙ sym e)

Made-below :
    (w : World) (a b c q : ℕ) (m : LinkRelation)
    → IsFresh w
    → Made w a b c q m
    → m.token < w.next_token + 1
Made-below w a b c q m fresh (as_before n) = omega (arith, old_token w c q m fresh n)
Made-below w a b c q m fresh (on_left e f g) = omega (arith, g)
Made-below w a b c q m fresh (on_right e f g) = omega (arith, g)

pub Made-IsFresh :
    (w w' : World) (a b : ℕ)
    → w'.next_token ≡ w.next_token + 1
    → ((c : ℕ) (u : LinkState) (q : ℕ) (m : LinkRelation)
        → w'.states c ≡ some u
        → Maps.get u.relations q ≡ some m
        → Made w a b c q m)
    → IsFresh w
    → IsFresh w'
Made-IsFresh w w' a b next made fresh = record {
  below = λ c u q m is e. rw next (Made-below w a b c q m fresh (made c u q m is e));
  one_pair = λ d s p r c u q m is e there h same.
      Made-apart w a b c q d p m r fresh (made d s p r is e) (made c u q m there h) same;
}
