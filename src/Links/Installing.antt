-- ===== src/Links/Installing.antt =====
-- crates/lunatic-process/src/state.rs, `link_pair`: what `install` keeps.
use lunatic.Prelude.{
  ℕ, ◌+◌, ◌≡◌, inl, inr, refl, ap, sym, subst, ◌∙◌, Option, none, some, false, if◌then◌else◌, ◌==◌,
  ==→eq, ==_refl, arith, Bool-cases, Option-cases,
}
use lunatic.Prelude.Maps
use lunatic.Prelude.Maps.{get-put, get-remove}
use lunatic.Links.{
  LinkRelation, LinkState, Handle, World, put_state, is_terminated, owns, add_relation, install,
}
use lunatic.Links.Mutual.{IsMutual, owns_relation}
use lunatic.Links.Pairs.{pair-IsMutual, eq_sym_false}
use lunatic.Links.Tokens.{
  IsFresh, NoneNew-IsFresh, Made, as_before, on_left, on_right, Made-IsFresh,
}
use lunatic.Links.Linking.{
  tagged, both-NoneNew, added-Side, retag-tagged, tagged-Side, one_token, some_same, tagged-Before,
  added-Made,
}

module _ (left : Handle) (left_tag : Option ℕ) (right : Handle) (right_tag : Option ℕ) (w : World)
    (ls rs : LinkState) (at_left : w.states left.address ≡ some ls)
    (at_right : w.states right.address ≡ some rs) (left_id : ls.process_id ≡ left.process_id)
    (right_id : rs.process_id ≡ right.process_id) (apart : (left.address == right.address) ≡ false)
    (old : IsMutual w) where
  retagged-IsMutual :
      (l m : LinkRelation)
      → IsFresh w
      → Maps.get ls.relations right.process_id ≡ some l
      → Maps.get rs.relations left.process_id ≡ some m
      → m.token ≡ l.token
      → IsMutual (
          put_state left.address
            (tagged right.process_id left_tag l ls)
            (put_state right.address (tagged left.process_id right_tag m rs) w))
  retagged-IsMutual l m fresh el em same =
      let l_to : l.peer_state ≡ right.address =
        one_token w left.address right.address ls rs right.process_id left.process_id l m fresh
          apart at_left at_right el em same in
      let m_to : m.peer_state ≡ left.address =
        one_token w right.address left.address rs ls left.process_id right.process_id m l fresh
          (eq_sym_false left.address right.address apart) at_right at_left em el (sym same) in
      pair-IsMutual w _ left.address right.address ls rs (tagged right.process_id left_tag l ls)
        (tagged left.process_id right_tag m rs) _ _ old (λ c not_a not_b. rw (not_a, not_b) refl)
        (tagged-Side w _ left.address right.address right.process_id ls rs left_tag right_tag l m
          old at_left (rw (==_refl left.address) refl)
          (eq_sym_false left.address right.address apart) right_id el l_to same m_to)
        (tagged-Side w _ right.address left.address left.process_id rs ls right_tag left_tag m l old
          at_right (rw (apart, ==_refl right.address) refl) apart left_id em m_to (sym same) l_to)

  abbrev left_relation : LinkRelation
  left_relation = record { token = w.next_token; peer_state = right.address; exit_tag = left_tag }

  abbrev right_relation : LinkRelation
  right_relation = record { token = w.next_token; peer_state = left.address; exit_tag = right_tag }

  created-IsMutual :
      Maps.get ls.relations right.process_id ≡ none
      → Maps.get rs.relations left.process_id ≡ none
      → IsMutual (
          put_state left.address (add_relation right.process_id left_relation ls) (
            put_state right.address
              (add_relation left.process_id right_relation rs)
              (record w { next_token = w.next_token + 1 })))
  created-IsMutual el er =
      pair-IsMutual w _ left.address right.address ls rs
        (add_relation right.process_id left_relation ls)
        (add_relation left.process_id right_relation rs) (some left_relation) (some right_relation)
        old (λ c not_a not_b. rw (not_a, not_b) refl)
        (added-Side w _ left.address right.address right.process_id ls rs left_relation
          right_relation old at_left (rw (==_refl left.address) refl)
          (eq_sym_false left.address right.address apart) right_id el refl refl refl)
        (added-Side w _ right.address left.address left.process_id rs ls right_relation
          left_relation old at_right (rw (apart, ==_refl right.address) refl) apart left_id er refl
          refl refl)

  pub install-IsMutual : IsFresh w → IsMutual (install left left_tag ls right right_tag rs w).1
  unfolding install
  install-IsMutual fresh = elim (Bool-cases (is_terminated ls)) [
    | inl over ↦ rw (over, install) old
    | inr left_runs ↦ elim (Bool-cases (is_terminated rs)) [
      | inl over ↦ rw (left_runs, over, install) old
      | inr right_runs ↦ elim (Option-cases (Maps.get ls.relations right.process_id)) [
        | inr (l, el) ↦ elim (Bool-cases (owns left.process_id l.token rs)) [
          | inr differ ↦ rw (left_runs, right_runs, el, differ, install) old
          | inl its ↦
              let (m, em, same) = owns_relation left.process_id l.token rs its in
              rw (left_runs, right_runs, el, its, install)
                (rw
                  (
                    retag-tagged right.process_id left_tag l ls el,
                    retag-tagged left.process_id right_tag m rs em,
                  )
                  (retagged-IsMutual l m fresh el em same))
        ]
        | inl unlinked ↦ elim (Option-cases (Maps.get rs.relations left.process_id)) [
          | inr (m, em) ↦ rw (left_runs, right_runs, unlinked, em, install) old
          | inl free ↦ elim (Bool-cases (ls.available == 0)) [
            | inl full ↦ rw (left_runs, right_runs, unlinked, free, full, install) old
            | inr room ↦ elim (Bool-cases (rs.available == 0)) [
              | inl full ↦ rw (left_runs, right_runs, unlinked, free, room, full, install) old
              | inr space ↦
                  rw (left_runs, right_runs, unlinked, free, room, space, install)
                    (created-IsMutual unlinked free)
            ]
          ]
        ]
      ]
    ]
  ]

  pub install-IsFresh : IsFresh w → IsFresh (install left left_tag ls right right_tag rs w).1
  unfolding install
  install-IsFresh fresh = elim (Bool-cases (is_terminated ls)) [
    | inl over ↦ rw (over, install) fresh
    | inr left_runs ↦ elim (Bool-cases (is_terminated rs)) [
      | inl over ↦ rw (left_runs, over, install) fresh
      | inr right_runs ↦ elim (Option-cases (Maps.get ls.relations right.process_id)) [
        | inr (l, el) ↦ elim (Bool-cases (owns left.process_id l.token rs)) [
          | inr differ ↦ rw (left_runs, right_runs, el, differ, install) fresh
          | inl its ↦
              let (m, em, same) = owns_relation left.process_id l.token rs its in
              rw (left_runs, right_runs, el, its, install)
                (rw
                  (
                    retag-tagged right.process_id left_tag l ls el,
                    retag-tagged left.process_id right_tag m rs em,
                  )
                  (NoneNew-IsFresh w _ (omega arith)
                    (both-NoneNew w left.address right.address _ _
                      (tagged-Before w left.address right.process_id ls left_tag l at_left el)
                      (tagged-Before w right.address left.process_id rs right_tag m at_right em))
                    fresh))
        ]
        | inl unlinked ↦ elim (Option-cases (Maps.get rs.relations left.process_id)) [
          | inr (m, em) ↦ rw (left_runs, right_runs, unlinked, em, install) fresh
          | inl free ↦ elim (Bool-cases (ls.available == 0)) [
            | inl full ↦ rw (left_runs, right_runs, unlinked, free, full, install) fresh
            | inr room ↦ elim (Bool-cases (rs.available == 0)) [
              | inl full ↦ rw (left_runs, right_runs, unlinked, free, room, full, install) fresh
              | inr space ↦
                  rw (left_runs, right_runs, unlinked, free, room, space, install)
                    (Made-IsFresh w _ left.address right.address refl made fresh)
            ]
          ]
        ]
      ]
    ]
  ]
    where
      made :
          (c : ℕ) (u : LinkState) (q : ℕ) (n : LinkRelation)
          → (if left.address == c
              then some (add_relation right.process_id left_relation ls)
              else if right.address == c
              then some (add_relation left.process_id right_relation rs)
              else w.states c)
            ≡ some u
          → Maps.get u.relations q ≡ some n
          → Made w left.address right.address c q n
      made c u q n e held = elim (Bool-cases (left.address == c)) [
        | inl at_l ↦
            subst (λ i. Made w left.address right.address i q n) (==→eq left.address c at_l)
              (added-Made w left.address right.address left.address right.process_id ls
                left_relation at_left q n
                (λ h.
                  on_left refl (ap (λ (y : LinkRelation). y.peer_state) h)
                    (ap (λ (y : LinkRelation). y.token) h))
                (ap (λ (v : LinkState). Maps.get v.relations q) (some_same (rw at_l at e)) ∙ held))
        | inr not_l ↦ elim (Bool-cases (right.address == c)) [
          | inl at_r ↦
              subst (λ i. Made w left.address right.address i q n) (==→eq right.address c at_r)
                (added-Made w left.address right.address right.address left.process_id rs
                  right_relation at_right q n
                  (λ h.
                    on_right refl (ap (λ (y : LinkRelation). y.peer_state) h)
                      (ap (λ (y : LinkRelation). y.token) h))
                  (ap (λ (v : LinkState). Maps.get v.relations q)
                      (some_same (rw at_r at (rw not_l at e)))
                    ∙ held))
          | inr not_r ↦ as_before (record {
            state = u;
            relation = n;
            was = rw not_r at (rw not_l at e);
            held = held;
            same_token = refl;
            same_peer = refl;
          })
        ]
      ]
