-- ===== src/Links.antt =====
-- crates/lunatic-process/src/state.rs: links between processes, as relations that both sides hold.
-- A link state is found under its address, the identity of its `Arc`; a weak reference is an address
-- whose state may be gone. A call that takes the locks of both sides is one step. What the code
-- sends to the other side of a link is a list of notices.
pub mod Relations
pub mod Detached
pub mod Mutual
pub mod Left
pub mod Ending
pub mod Pairs
pub mod Unlinking
pub mod Linking
pub mod Installing
pub mod Freshness
pub mod Alike
pub mod Tokens
pub mod Run
pub mod Notices
mod Examples
use lunatic.Prelude.{
  ℕ, ◌+◌, ◌-◌, List, [], ◌∷◌, Option, none, some, Bool, true, false, ◌||◌, if◌then◌else◌, ◌==◌,
  is_some,
}
use lunatic.Prelude.Maps
use lunatic.Message.{DeathReason, normal, failure, no_process}

-- Its permit is one of the state that holds it.
pub record LinkRelation : Type 0 where
  pub token : ℕ
  pub peer_state : ℕ
  pub exit_tag : Option ℕ

-- `available` is what is left of the link permits of its sender, `closed` whether that is closed or
-- has published a reason.
pub record LinkState : Type 0 where
  pub process_id : ℕ
  pub terminal_reason : Option DeathReason
  pub relations : List (ℕ × LinkRelation)
  pub available : ℕ
  pub closed : Bool

pub record Handle : Type 0 where
  pub process_id : ℕ
  pub address : ℕ

pub record World : Type 0 where
  pub states : ℕ → Option LinkState
  pub next_token : ℕ

pub data LinkError : Type 0 where
  identity_mismatch terminated capacity_exhausted : ℕ → LinkError
  inconsistent_state : (left right : ℕ) → LinkError

-- `Signal::LinkDied`, to a process at an address.
pub record Notice : Type 0 where
  pub peer : ℕ
  pub process_id : ℕ
  pub exit_tag : Option ℕ
  pub reason : DeathReason

abbrev pub put_state : ℕ → LinkState → World → World
put_state address s w = record w { states = λ a. if address == a then some s else w.states a }

-- Whether a process no longer takes links.
unfoldable pub is_terminated : LinkState → Bool
is_terminated s = is_some s.terminal_reason || s.closed

-- The relation with a process, without its permit.
unfoldable pub remove_relation : ℕ → LinkState → LinkState
remove_relation peer_id s = record s {
  relations = Maps.remove peer_id s.relations;
  available = s.available + 1;
}

-- Whether the relation with a process has that token.
unfoldable pub owns : ℕ → ℕ → LinkState → Bool
owns peer_id token s = elim (Maps.get s.relations peer_id) [
  | none ↦ false
  | some r ↦ r.token == token
]

unfoldable pub retag : ℕ → Option ℕ → LinkState → LinkState
retag peer_id tag s = elim (Maps.get s.relations peer_id) [
  | none ↦ s
  | some r ↦ record s { relations = Maps.put peer_id (record r { exit_tag = tag }) s.relations }
]

-- A permit is taken for the new relation.
unfoldable pub add_relation : ℕ → LinkRelation → LinkState → LinkState
add_relation peer_id r s = record s {
  relations = Maps.put peer_id r s.relations;
  available = s.available - 1;
}

-- Both sides, with both locks held.
unfoldable pub install :
    Handle → Option ℕ → LinkState → Handle → Option ℕ → LinkState → World → Option LinkError × World
install left left_tag ls right right_tag rs w =
    let retagged =
      put_state left.address (retag right.process_id left_tag ls)
        (put_state right.address (retag left.process_id right_tag rs) w) in
    let created =
      put_state left.address
        (add_relation right.process_id
          (record { token = w.next_token; peer_state = right.address; exit_tag = left_tag }) ls)
        (put_state right.address
          (add_relation left.process_id
            (record { token = w.next_token; peer_state = left.address; exit_tag = right_tag }) rs)
          (record w { next_token = w.next_token + 1 })) in
    if is_terminated ls
    then (some (terminated left.process_id), w)
    else if is_terminated rs
    then (some (terminated right.process_id), w)
    else elim (Maps.get ls.relations right.process_id) [
      | none ↦ elim (Maps.get rs.relations left.process_id) [
        | some r ↦ (some (inconsistent_state left.process_id right.process_id), w)
        | none ↦
            if ls.available == 0
            then (some (capacity_exhausted left.process_id), w)
            else if rs.available == 0
            then (some (capacity_exhausted right.process_id), w)
            else (none, created)
      ]
      | some l ↦
          if owns left.process_id l.token rs
          then (none, retagged)
          else (some (inconsistent_state left.process_id right.process_id), w)
    ]

-- A handle keeps its state alive, so that both are there.
unfoldable pub link_pair : Handle → Option ℕ → Handle → Option ℕ → World → Option LinkError × World
link_pair left left_tag right right_tag w =
    if left.address == right.address
    then if left.process_id == right.process_id
      then (none, w)
      else (some (identity_mismatch left.process_id), w)
    else if left.process_id == right.process_id
    then (some (identity_mismatch left.process_id), w)
    else elim (w.states left.address) [
      | none ↦ (some (terminated left.process_id), w)
      | some ls ↦ elim (w.states right.address) [
        | none ↦ (some (terminated right.process_id), w)
        | some rs ↦ install left left_tag ls right right_tag rs w
      ]
    ]

-- A side loses its relation where it still has that token.
unfoldable pub remove_owned : ℕ → ℕ → LinkState → LinkState
remove_owned peer_id token s = if owns peer_id token s then remove_relation peer_id s else s

unfoldable pub unlink_found : Handle → ℕ → LinkState → LinkRelation → World → Bool × World
unlink_found self peer_id s r w = elim (w.states r.peer_state) [
  | none ↦ (owns peer_id r.token s, put_state self.address (remove_owned peer_id r.token s) w)
  | some peer ↦ (
    owns peer_id r.token s || owns self.process_id r.token peer,
    put_state self.address (remove_owned peer_id r.token s)
        (put_state r.peer_state (remove_owned self.process_id r.token peer) w),
  )
]

unfoldable pub unlink_peer : Handle → ℕ → World → Bool × World
unlink_peer self peer_id w = elim (w.states self.address) [
  | none ↦ (false, w)
  | some s ↦ elim (Maps.get s.relations peer_id) [
    | none ↦ (false, w)
    | some r ↦ unlink_found self peer_id s r w
  ]
]

-- The loop over the relations of a process that ends: the other sides that still hold the relation
-- lose it, and get a notice each.
unfoldable pub detach_all : ℕ → DeathReason → List (ℕ × LinkRelation) → World → List Notice × World
detach_all process_id reason [] w = ([], w)
detach_all process_id reason ((peer_id, r) ∷ relations) w = elim (w.states r.peer_state) [
  | none ↦ detach_all process_id reason relations w
  | some peer ↦ elim (owns process_id r.token peer) [
    | false ↦ detach_all process_id reason relations w
    | true ↦
        let (notices, w') =
          detach_all process_id reason relations
            (put_state r.peer_state (remove_relation process_id peer) w) in
        (
          record {
            peer = r.peer_state;
            process_id = process_id;
            exit_tag = r.exit_tag;
            reason = reason;
          }
              ∷ notices,
          w',
        )
  ]
]

-- `mem::take` of the relations, with all their permits.
unfoldable pub end_state : DeathReason → LinkState → LinkState
end_state reason s = record s {
  terminal_reason = some reason;
  relations = [];
  available = s.available + Maps.size s.relations;
}

unfoldable pub terminate : Handle → DeathReason → World → List Notice × World
terminate self reason w = elim (w.states self.address) [
  | none ↦ ([], w)
  | some s ↦
      if is_some s.terminal_reason
      then ([], w)
      else detach_all self.process_id reason s.relations
          (put_state self.address (end_state reason s) w)
]

-- `Drop`: the last handle of a state is gone, and the state with it.
unfoldable pub drop_state : ℕ → World → List Notice × World
drop_state address w = elim (w.states address) [
  | none ↦ ([], w)
  | some s ↦
      detach_all s.process_id no_process s.relations
        (record w { states = λ a. if address == a then none else w.states a })
]

-- `deliver_link_death` asks for a kill of the peer when its notice of a failure is not taken.
unfoldable pub kills_peer : Bool → DeathReason → Bool
kills_peer true reason = false
kills_peer false normal = false
kills_peer false failure = true
kills_peer false no_process = true

unfoldable pub relation_count : LinkState → ℕ
relation_count s = Maps.size s.relations
