-- ===== src/Links/Run.antt =====
-- crates/lunatic-process/src/state.rs: any sequence of calls on the links of processes.
use lunatic.Prelude.{
  ℕ, ◌≡◌, inl, inr, refl, ap, sym, ◌∙◌, List, [], ◌∷◌, Option, none, some, true, false, ◌==◌, ==→eq,
  arith, Bool-cases, Option-cases,
}
use lunatic.Prelude.Maps
use lunatic.Prelude.Maps.{get-remove}
use lunatic.Message.{DeathReason}
use lunatic.Links.{
  LinkRelation, LinkState, Handle, World, put_state, link_pair, unlink_peer, terminate, drop_state,
}
use lunatic.Links.Mutual.{Returned}
use lunatic.Links.Ending.{IsFaithful, terminate-IsMutual, drop_state-IsMutual}
use lunatic.Links.Alike.{IsLinked, alike-IsLinked, unchanged}
use lunatic.Links.Freshness.{unlink_peer-IsFresh, terminate-IsFresh, drop_state-IsFresh}
use lunatic.Links.Unlinking.{unlink_peer-IsMutual}
use lunatic.Links.Installing.{install-IsMutual, install-IsFresh}

-- A process gets its state, links and unlinks, loses its ingress, ends, or its state is dropped.
pub data Op : Type 0 where
  spawns : (address process_id limit : ℕ) → Op
  links : (left : ℕ) → Option ℕ → (right : ℕ) → Option ℕ → Op
  unlinks : (address peer_id : ℕ) → Op
  closes drops : ℕ → Op
  terminates : ℕ → DeathReason → Op

unfoldable pub fresh_state : ℕ → ℕ → LinkState
fresh_state process_id limit = record {
  process_id = process_id;
  terminal_reason = none;
  relations = [];
  available = limit;
  closed = false;
}

unfoldable pub handle : ℕ → LinkState → Handle
handle address s = record { process_id = s.process_id; address = address }

unfoldable pub link_at :
    Option LinkState → Option LinkState → ℕ → Option ℕ → ℕ → Option ℕ → World → World
link_at none r a ta b tb w = w
link_at (some s) none a ta b tb w = w
link_at (some s) (some t) a ta b tb w = (link_pair (handle a s) ta (handle b t) tb w).1

unfoldable pub step : Op → World → World
step (spawns a process_id limit) w = elim (w.states a) [
  | some s ↦ w
  | none ↦ put_state a (fresh_state process_id limit) w
]
step (links a ta b tb) w = link_at (w.states a) (w.states b) a ta b tb w
step (unlinks a peer_id) w = elim (w.states a) [
  | none ↦ w
  | some s ↦ (unlink_peer (handle a s) peer_id w).1
]
step (closes a) w = elim (w.states a) [
  | none ↦ w
  | some s ↦ put_state a (record s { closed = true }) w
]
step (drops a) w = (drop_state a w).1
step (terminates a reason) w = elim (w.states a) [
  | none ↦ w
  | some s ↦ (terminate (handle a s) reason w).1
]

unfoldable pub run : List Op → World → World
run [] w = w
run (op ∷ ops) w = run ops (step op w)

unfoldable pub empty_world : World
empty_world = record { states = λ a. none; next_token = 0 }

spawned-IsLinked :
    (a process_id limit : ℕ) (w : World)
    → w.states a ≡ none
    → IsLinked w
    → IsLinked (put_state a (fresh_state process_id limit) w)
unfolding fresh_state
spawned-IsLinked a process_id limit w free l =
    alike-IsLinked w _
      (λ c u e. elim (Bool-cases (a == c)) [
        | inl new ↦ inl (ground (arith, e, new))
        | inr other ↦ inr (unchanged (w.states c) u (ground (arith, e, other)))
      ])
      (λ d v e. elim (Bool-cases (a == d)) [
        | inl new ↦ absurd (ground (arith, e, free, ap w.states (==→eq a d new)))
        | inr other ↦ unchanged _ v (ground (arith, e, other))
      ])
      refl l

closed-IsLinked :
    (a : ℕ) (s : LinkState) (w : World)
    → w.states a ≡ some s
    → IsLinked w
    → IsLinked (put_state a (record s { closed = true }) w)
closed-IsLinked a s w at_a l =
    alike-IsLinked w _
      (λ c u e. inr (elim (Bool-cases (a == c)) [
        | inl here ↦
            let is_u : record s { closed = true } ≡ u = ground (arith, e, here) in
            record {
              state = s;
              at_it = ap w.states (sym (==→eq a c here)) ∙ at_a;
              id_same = ap (λ (y : LinkState). y.process_id) is_u;
              relations_same = ap (λ (y : LinkState). y.relations) is_u;
            }
        | inr other ↦ unchanged (w.states c) u (ground (arith, e, other))
      ]))
      (λ d v e. elim (Bool-cases (a == d)) [
        | inl here ↦
            let is_v : s ≡ v = ground (arith, e, at_a, ap w.states (==→eq a d here)) in
            record {
              state = record s { closed = true };
              at_it = ground (arith, here);
              id_same = ap (λ (y : LinkState). y.process_id) is_v;
              relations_same = ap (λ (y : LinkState). y.relations) is_v;
            }
        | inr other ↦ unchanged _ v (ground (arith, e, other))
      ])
      refl l

link_pair-IsLinked :
    (a : ℕ) (ta : Option ℕ) (b : ℕ) (tb : Option ℕ) (s t : LinkState) (w : World)
    → w.states a ≡ some s
    → w.states b ≡ some t
    → IsLinked w
    → IsLinked (link_pair (handle a s) ta (handle b t) tb w).1
unfolding link_pair handle
link_pair-IsLinked a ta b tb s t w at_a at_b l = elim (Bool-cases (a == b)) [
  | inl same ↦ elim (Bool-cases (s.process_id == t.process_id)) [
    | inl one ↦ rw (same, one, link_pair) l
    | inr two ↦ rw (same, two, link_pair) l
  ]
  | inr apart ↦ elim (Bool-cases (s.process_id == t.process_id)) [
    | inl one ↦ rw (apart, one, link_pair) l
    | inr two ↦
        rw (apart, two, at_a, at_b, link_pair)
          (record {
            is_mutual =
                install-IsMutual (handle a s) ta (handle b t) tb w s t at_a at_b refl refl apart
                  l.is_mutual l.is_fresh;
            is_fresh =
                install-IsFresh (handle a s) ta (handle b t) tb w s t at_a at_b refl refl apart
                  l.is_mutual l.is_fresh;
          })
  ]
]

handle-IsFaithful :
    (a : ℕ) (s : LinkState) (w : World) → w.states a ≡ some s → IsFaithful w (handle a s)
unfolding handle
handle-IsFaithful a s w e =
    λ t e'. let same : t ≡ s = ground (arith, e, e') in ap (λ (y : LinkState). y.process_id) same

step-IsLinked : (op : Op) (w : World) → IsLinked w → IsLinked (step op w)
unfolding step link_at
step-IsLinked (spawns a process_id limit) w l = elim (Option-cases (w.states a)) [
  | inl free ↦ rw (free, step) (spawned-IsLinked a process_id limit w free l)
  | inr (s, e) ↦ rw (e, step) l
]
step-IsLinked (links a ta b tb) w l = elim (Option-cases (w.states a)) [
  | inl gone ↦ rw (gone, step, link_at) l
  | inr (s, at_a) ↦ elim (Option-cases (w.states b)) [
    | inl gone ↦ rw (at_a, gone, step, link_at) l
    | inr (t, at_b) ↦
        rw (at_a, at_b, step, link_at) (link_pair-IsLinked a ta b tb s t w at_a at_b l)
  ]
]
step-IsLinked (unlinks a peer_id) w l = elim (Option-cases (w.states a)) [
  | inl gone ↦ rw (gone, step) l
  | inr (s, e) ↦
      rw (e, step)
        (record {
          is_mutual =
              unlink_peer-IsMutual (handle a s) peer_id w (handle-IsFaithful a s w e) l.is_mutual;
          is_fresh = unlink_peer-IsFresh (handle a s) peer_id w l.is_mutual l.is_fresh;
        })
]
step-IsLinked (closes a) w l = elim (Option-cases (w.states a)) [
  | inl gone ↦ rw (gone, step) l
  | inr (s, e) ↦ rw (e, step) (closed-IsLinked a s w e l)
]
step-IsLinked (drops a) w l = record {
  is_mutual = drop_state-IsMutual a w l.is_mutual;
  is_fresh = drop_state-IsFresh a w l.is_mutual l.is_fresh;
}
step-IsLinked (terminates a reason) w l = elim (Option-cases (w.states a)) [
  | inl gone ↦ rw (gone, step) l
  | inr (s, e) ↦
      rw (e, step)
        (record {
          is_mutual =
              terminate-IsMutual (handle a s) reason w (handle-IsFaithful a s w e) l.is_mutual;
          is_fresh =
              terminate-IsFresh (handle a s) reason w (handle-IsFaithful a s w e) l.is_mutual
                l.is_fresh;
        })
]

pub run-IsLinked : (ops : List Op) (w : World) → IsLinked w → IsLinked (run ops w)
unfolding run
run-IsLinked [] w l = l
run-IsLinked (op ∷ ops) w l = run-IsLinked ops (step op w) (step-IsLinked op w l)

pub empty-IsLinked : IsLinked empty_world
unfolding empty_world
empty-IsLinked = record {
  is_mutual = record {
    keyed = λ a s e. absurd (ground (arith, e));
    returned = λ a s p r e h. absurd (ground (arith, e));
  };
  is_fresh = record {
    below = λ a s p r e h. absurd (ground (arith, e));
    one_pair = λ a s p r c u q m e h. absurd (ground (arith, e));
  };
}

-- Whatever processes are started, linked, unlinked, closed, ended and dropped, in any order: a link
-- that one process holds is held by the other too, under the process's identity and with the same
-- token, and leads back; no process is linked with itself.
pub run-Returned :
    (ops : List Op) (a : ℕ) (s : LinkState) (p : ℕ) (r : LinkRelation)
    → (run ops empty_world).states a ≡ some s
    → Maps.get s.relations p ≡ some r
    → Returned (run ops empty_world) a s p r
run-Returned ops = (run-IsLinked ops empty_world empty-IsLinked).is_mutual.returned
