-- ===== src/Links/Left.antt =====
-- crates/lunatic-process/src/state.rs: what the end of a process leaves of another.
use lunatic.Prelude.{
  ℕ, ◌≡◌, ◌⊎◌, inl, inr, refl, sym, subst, ◌∙◌, List, Option, none, some, true, false, ◌==◌, arith,
  Bool-cases,
}
use lunatic.Prelude.Maps
use lunatic.Prelude.Maps.{get-remove}
use lunatic.Links.{LinkRelation, LinkState, remove_relation}
use lunatic.Links.Detached.{hit, detached}

-- A state that is left is the old one, without its relation where there was a hit.
pub data Left (x : ℕ) (rels : List (ℕ × LinkRelation)) (c : ℕ)
    : Option LinkState → LinkState → Type 0 where
  lost : {t : LinkState} → hit x rels c t ≡ true → Left x rels c (some t) (remove_relation x t)
  kept : {t : LinkState} → hit x rels c t ≡ false → Left x rels c (some t) t

pub detached-Left :
    (x : ℕ) (rels : List (ℕ × LinkRelation)) (c : ℕ) (o : Option LinkState) (t' : LinkState)
    → detached x rels c o ≡ some t'
    → Left x rels c o t'
unfolding detached
detached-Left x rels c none t' h = absurd (ground (arith, h))
detached-Left x rels c (some t) t' h = elim (Bool-cases (hit x rels c t)) [
  | inl there ↦
      let e : t' ≡ remove_relation x t = ground (arith, h, there) in
      subst (Left x rels c (some t)) (sym e) (lost there)
  | inr absent ↦
      let e : t' ≡ t = ground (arith, h, absent) in
      subst (Left x rels c (some t)) (sym e) (kept absent)
]

-- What a relation of a state that is left says of the old one.
pub record Old (x : ℕ) (rels : List (ℕ × LinkRelation)) (c : ℕ) (o : Option LinkState)
    (t' : LinkState) (q : ℕ) (r : LinkRelation) : Type 0 where
  pub old : LinkState
  pub was : o ≡ some old
  pub same_id : old.process_id ≡ t'.process_id
  pub held : Maps.get old.relations q ≡ some r
  pub apart : (hit x rels c old ≡ false) ⊎ ((x == q) ≡ false)

pub Left-Old :
    (x : ℕ) (rels : List (ℕ × LinkRelation)) (c : ℕ) (o : Option LinkState) (t' : LinkState) (q : ℕ)
    (r : LinkRelation)
    → Left x rels c o t'
    → Maps.get t'.relations q ≡ some r
    → Old x rels c o t' q r
unfolding remove_relation
Left-Old x rels c _ _ q r (kept {t = t} absent) e = record {
  old = t;
  was = refl;
  same_id = refl;
  held = e;
  apart = inl absent;
}
Left-Old x rels c _ _ q r (lost {t = t} there) e = record {
  old = t;
  was = refl;
  same_id = refl;
  held = ground (arith, e, get-remove x t.relations q);
  apart = inr (ground (arith, e, get-remove x t.relations q));
}

-- What is left of a state that was there, given that a relation of it is not the one that is lost.
pub stays :
    (x : ℕ) (rels : List (ℕ × LinkRelation)) (c : ℕ) (t : LinkState) (q : ℕ) (r : LinkRelation)
    → Maps.get t.relations q ≡ some r
    → (hit x rels c t ≡ true → (x == q) ≡ false)
    → (t' : LinkState) × (detached x rels c (some t) ≡ some t')
      × (t'.process_id ≡ t.process_id)
      × (Maps.get t'.relations q ≡ some r)
unfolding detached remove_relation
stays x rels c t q r e apart = elim (Bool-cases (hit x rels c t)) [
  | inl there ↦
      (remove_relation x t, rw there refl, refl, get-remove x t.relations q ∙ rw (apart there) e)
  | inr absent ↦ (t, rw absent refl, refl, e)
]
