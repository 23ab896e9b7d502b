-- ===== src/Links/Examples.antt =====
-- The theorems of links at three processes, and runs.
use lunatic.Prelude.{ℕ, ◌≡◌, ◌≢◌, refl, List, [], ◌∷◌, Option, none, some, false, arith, ◌++◌}
use lunatic.Prelude.Maps
use lunatic.Message.{failure}
use lunatic.Links.{
  LinkRelation, LinkState, World, link_pair, install, is_terminated, owns, retag, add_relation,
  terminate, detach_all, end_state, remove_relation, relation_count, unlink_peer, unlink_found,
  remove_owned, drop_state,
}
use lunatic.Links.Mutual.{Returned, IsMutual}
use lunatic.Links.Notices.{notices_of, terminate-Ended}
use lunatic.Links.Run.{
  Op, spawns, links, unlinks, terminates, drops, step, run, link_at, handle, fresh_state,
  empty_world, run-IsLinked, run-Returned, empty-IsLinked,
}

-- Processes 7, 8 and 9 at 1, 2 and 3; 7 is linked with both.
abbrev star : List Op
star =
    spawns 1 7 2
    ∷ spawns 2 8 2
    ∷ spawns 3 9 2
    ∷ links 1 (some 5) 2 none
    ∷ links 3 none 1 (some 6)
    ∷ []

abbrev world : World
world = run star empty_world

counts : List Op → Option ℕ × Option ℕ × Option ℕ
counts ops =
    let w = run ops empty_world in
    (count_at (w.states 1), count_at (w.states 2), count_at (w.states 3))
  where
    count_at : Option LinkState → Option ℕ
    count_at none = none
    count_at (some s) = some (relation_count s)

abbrev hub : LinkState
hub = record {
  process_id = 7;
  terminal_reason = none;
  relations =
      (8, record { token = 0; peer_state = 2; exit_tag = some 5 })
      ∷ (9, record { token = 1; peer_state = 3; exit_tag = some 6 })
      ∷ [];
  available = 0;
  closed = false;
}

hub_state : world.states 1 ≡ some hub
unfolding run step link_at link_pair install is_terminated add_relation handle fresh_state
    empty_world
hub_state = refl

run-Returned_example :
    Returned world 1 hub 8 (record { token = 0; peer_state = 2; exit_tag = some 5 })
run-Returned_example = run-Returned star 1 hub 8 _ hub_state refl

terminate-Ended_example :
    let (notices, w') = terminate (record { process_id = 7; address = 1 }) failure world in
    (notices
      ≡ record { peer = 2; process_id = 7; exit_tag = some 5; reason = failure }
        ∷ record { peer = 3; process_id = 7; exit_tag = some 6; reason = failure }
        ∷ [])
    × IsMutual w'
    × ((c : ℕ) (u : LinkState) (q : ℕ) (r : LinkRelation)
        → w'.states c ≡ some u
        → Maps.get u.relations q ≡ some r
        → r.peer_state ≢ 1)
unfolding notices_of
terminate-Ended_example =
    terminate-Ended (record { process_id = 7; address = 1 }) failure world hub (λ s e. hub_id s e)
      (run-IsLinked star empty_world empty-IsLinked).is_mutual hub_state refl
  where
    hub_id : (s : LinkState) → world.states 1 ≡ some s → s.process_id ≡ 7
    hub_id s e = ground (arith, e, hub_state)

runs :
    (counts star ≡ (some 2, some 1, some 1))
    × (counts (star ++ unlinks 2 7 ∷ []) ≡ (some 1, some 0, some 1))
    × (counts (star ++ terminates 1 failure ∷ []) ≡ (some 0, some 0, some 0))
    × (counts (star ++ drops 3 ∷ []) ≡ (some 1, some 1, none))
unfolding counts run step link_at link_pair install is_terminated add_relation handle fresh_state
    empty_world relation_count owns retag unlink_peer unlink_found remove_owned remove_relation
    terminate detach_all end_state drop_state
runs = (refl, refl, refl, refl)
