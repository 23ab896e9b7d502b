-- ===== src/Message/Resources.antt =====
-- The resources attached to a data message: what a take changes, and what it gives back.
use lunatic.Prelude.{
  Bool-cases, ==→eq, ◌==◌, if◌then◌else◌, inl, inr, ℕ, ◌≡◌, refl, ap, ◌∙◌, List, Option, none, some,
  arith, set, get_elem?, get_elem?-set_self, get_elem?-set_ne, set-set, set_get,
}
use lunatic.Message.{
  DataMessage, Resource, take_slot, unwrap_unique, restore_slot, take_network_resource,
  restore_network_resource,
}

-- What a successful take found in the slot, and what it leaves.
record Taken (type_id index value : ℕ) (m m' : DataMessage) : Type 0 where
  slot :
      get_elem? m.resources index
      ≡ some (some (record { type_id = type_id; value = value; owners = 1 }))
  rest : m' ≡ record m { resources = set m.resources index none }

slot-Taken :
    (type_id index value : ℕ) (slot : Option (Option Resource)) (m m' : DataMessage)
    → get_elem? m.resources index ≡ slot
    → unwrap_unique index (take_slot type_id index slot m) ≡ (some value, m')
    → Taken type_id index value m m'
unfolding unwrap_unique take_slot
slot-Taken type_id index value none m m' e h = cc
slot-Taken type_id index value (some none) m m' e h = cc
slot-Taken type_id index value (some (some r)) m m' e h = record {
  slot = e ∙ ground arith;
  rest = ground arith;
}

slot_failed :
    (type_id index : ℕ) (slot : Option (Option Resource)) (m m' : DataMessage)
    → get_elem? m.resources index ≡ slot
    → unwrap_unique index (take_slot type_id index slot m) ≡ (none, m')
    → m' ≡ m
unfolding unwrap_unique take_slot
slot_failed type_id index none m m' e h = ground arith
slot_failed type_id index (some none) m m' e h = ground arith
slot_failed type_id index (some (some r)) m m' e h =
    ground (arith, set-set m.resources index none (some r), set_get m.resources index (some r) e)

take_network-Taken :
    (type_id index value : ℕ) (m m' : DataMessage)
    → take_network_resource type_id index m ≡ (some value, m')
    → Taken type_id index value m m'
unfolding take_network_resource
take_network-Taken type_id index value m m' h =
    slot-Taken type_id index value (get_elem? m.resources index) m m' refl h

-- A take that gives nothing leaves the message as it was: a resource of another type, or one with
-- a second owner, is back in its slot.
pub take_network_failed :
    (type_id index : ℕ) (m m' : DataMessage)
    → take_network_resource type_id index m ≡ (none, m')
    → m' ≡ m
unfolding take_network_resource
take_network_failed type_id index m m' h =
    slot_failed type_id index (get_elem? m.resources index) m m' refl h

-- A resource that was taken can be put back, which gives the message that it was taken from; in
-- between it cannot be taken again, and every other slot shows what it did.
pub restore-take :
    (type_id index value t j : ℕ) (m m' : DataMessage)
    → take_network_resource type_id index m ≡ (some value, m')
    → (restore_network_resource type_id index value m' ≡ some m)
      × (take_network_resource t index m' ≡ (none, m'))
      × (get_elem? m'.resources j ≡ (if index == j then some none else get_elem? m.resources j))
unfolding restore_network_resource take_network_resource
restore-take type_id index value t j m m' h = (restored, again, others)
  where
    taken : Taken type_id index value m m'
    taken = take_network-Taken type_id index value m m' h

    emptied : get_elem? m'.resources index ≡ some none
    emptied =
        ap (λ (x : DataMessage). get_elem? x.resources index) taken.rest
        ∙ get_elem?-set_self m.resources index none taken.slot

    restored : restore_network_resource type_id index value m' ≡ some m
    restored =
        ap (λ (x : Option (Option Resource)). restore_slot type_id index value x m') emptied
        ∙ ap (restore_slot type_id index value (some none)) taken.rest
        ∙ ap (λ (rs : List (Option Resource)). some (record m { resources = rs }))
            (set-set m.resources index none _ ∙ set_get m.resources index _ taken.slot)

    again : take_network_resource t index m' ≡ (none, m')
    again = rw (emptied, take_slot)

    others : get_elem? m'.resources j ≡ (if index == j then some none else get_elem? m.resources j)
    others = elim (Bool-cases (index == j)) [
      | inl same ↦ rw same (rw (← ==→eq index j same) emptied)
      | inr other ↦ rw other (
          ap (λ (x : DataMessage). get_elem? x.resources j) taken.rest
          ∙ get_elem?-set_ne m.resources index j none (λ e. ground arith))
    ]
