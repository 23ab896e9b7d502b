-- ===== src/Links/Alike.antt =====
-- crates/lunatic-process/src/state.rs: steps that leave every link as it is.
use lunatic.Prelude.{ℕ, ◌≡◌, ◌⊎◌, inl, inr, refl, ap, sym, subst, ◌∙◌, [], Option, some, arith}
use lunatic.Prelude.Maps
use lunatic.Prelude.Maps.{get-remove}
use lunatic.Links.{LinkState, World}
use lunatic.Links.Relations.{IsKeyed}
use lunatic.Links.Mutual.{IsMutual}
use lunatic.Links.Tokens.{IsFresh, NoneNew, NoneNew-IsFresh}

pub record IsLinked (w : World) : Type 0 where
  pub is_mutual : IsMutual w
  pub is_fresh : IsFresh w

-- A state with the process and the relations of another.
pub record Alike (o : Option LinkState) (u : LinkState) : Type 0 where
  pub state : LinkState
  pub at_it : o ≡ some state
  pub id_same : state.process_id ≡ u.process_id
  pub relations_same : state.relations ≡ u.relations

-- A step that makes, loses and changes no relation.
module _ (w w' : World)
    (back : (c : ℕ) (u : LinkState)
      → w'.states c ≡ some u
      → (u.relations ≡ []) ⊎ Alike (w.states c) u)
    (forth : (d : ℕ) (v : LinkState) → w.states d ≡ some v → Alike (w'.states d) v)
    (tokens : w'.next_token ≡ w.next_token) where
  alike-IsMutual : IsMutual w → IsMutual w'
  alike-IsMutual old = record {
    keyed = λ c u e. elim (back c u e) [
      | inl bare ↦ subst IsKeyed (sym bare) tt
      | inr o ↦ subst IsKeyed o.relations_same (old.keyed c o.state o.at_it)
    ];
    returned = λ c u q r e held. elim (back c u e) [
      | inl bare ↦ absurd (ground (arith, ap (λ n. Maps.get n q) bare, held))
      | inr o ↦
          let ret =
            old.returned c o.state q r o.at_it (ap (λ n. Maps.get n q) o.relations_same ∙ held) in
          let peer = forth r.peer_state ret.peer ret.found in
          record {
            peer = peer.state;
            back = ret.back;
            found = peer.at_it;
            named = peer.id_same ∙ ret.named;
            returns =
                ap (Maps.get peer.state.relations) (sym o.id_same)
                ∙ ap (λ n. Maps.get n o.state.process_id) peer.relations_same
                ∙ ret.returns;
            token_same = ret.token_same;
            back_to = ret.back_to;
            elsewhere = ret.elsewhere;
          }
    ];
  }

  alike-NoneNew : NoneNew w w'
  alike-NoneNew c u q m e held = elim (back c u e) [
    | inl bare ↦ absurd (ground (arith, ap (λ n. Maps.get n q) bare, held))
    | inr o ↦ record {
      state = o.state;
      relation = m;
      was = o.at_it;
      held = ap (λ n. Maps.get n q) o.relations_same ∙ held;
      same_token = refl;
      same_peer = refl;
    }
  ]

  pub alike-IsLinked : IsLinked w → IsLinked w'
  alike-IsLinked l = record {
    is_mutual = alike-IsMutual l.is_mutual;
    is_fresh = NoneNew-IsFresh w w' (omega (arith, tokens)) alike-NoneNew l.is_fresh;
  }

pub unchanged : (o : Option LinkState) (u : LinkState) → o ≡ some u → Alike o u
unchanged o u e = record { state = u; at_it = e; id_same = refl; relations_same = refl }
