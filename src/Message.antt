-- ===== src/Message.antt =====
-- crates/lunatic-process/src/message.rs, and `DeathReason` of crates/lunatic-process/src/lib.rs.
-- An `i64` tag is its 64-bit pattern: the code only compares tags. A `Vec` is its items and its
-- capacity; what the allocator gives beyond what is asked for is a parameter. An attached
-- `Arc<dyn Any>` is the identity of its type, its value and the number of its owners.
pub mod Buffer
pub mod Resources
pub mod Contents
mod Examples
use lunatic.Prelude.{
  ℕ, suc, ◌+◌, ◌-◌, ◌≤◌, List, [], ◌∷◌, ◌++◌, Option, none, some, Bool, ltb, ◌==◌, if◌then◌else◌,
  length, get_elem?, set, take, drop,
}

abbrev pub Tag : Type 0
Tag = ℕ

pub data DeathReason : Type 0 where
  normal failure no_process : DeathReason

-- How a `Vec` grows. The standard library promises room for what is asked, and no bound above it.
pub record Allocator : Type 0 where
  pub with_capacity : ℕ → ℕ
  pub grow : ℕ → ℕ
  pub with_capacity_fits : (n : ℕ) → n ≤ with_capacity n
  pub grow_fits : (n : ℕ) → n ≤ grow n

pub record Resource : Type 0 where
  pub type_id : ℕ
  pub value : ℕ
  pub owners : ℕ

pub record DataMessage : Type 0 where
  pub tag : Option Tag
  pub read_ptr : ℕ
  pub buffer : List ℕ
  pub buffer_capacity : ℕ
  pub resources : List (Option Resource)
  pub resources_capacity : ℕ

pub data Message : Type 0 where
  data_message : DataMessage → Message
  link_died : Option Tag → Message
  process_died : ℕ → DeathReason → Message

unfoldable pub tag : Message → Option Tag
tag (data_message m) = m.tag
tag (link_died t) = t
tag (process_died id reason) = none

unfoldable pub process_id : Message → Option ℕ
process_id (process_died id reason) = some id
process_id _ = none

unfoldable pub death_reason : Message → Option DeathReason
death_reason (process_died id reason) = some reason
death_reason _ = none

pub new : Allocator → Option Tag → ℕ → DataMessage
new alloc tag buffer_capacity = record {
  tag = tag;
  read_ptr = 0;
  buffer = [];
  buffer_capacity = alloc.with_capacity buffer_capacity;
  resources = [];
  resources_capacity = 0;
}

pub new_from_vec : Option Tag → List ℕ → ℕ → DataMessage
new_from_vec tag buffer capacity = record {
  tag = tag;
  read_ptr = 0;
  buffer = buffer;
  buffer_capacity = capacity;
  resources = [];
  resources_capacity = 0;
}

-- The message and the index of the new resource in it.
pub add_resource : Allocator → Resource → DataMessage → DataMessage × ℕ
add_resource alloc resource m =
    let len = length m.resources in
    let capacity =
      if len == m.resources_capacity then alloc.grow (len + 1) else m.resources_capacity in
    (record m { resources = m.resources ++ some resource ∷ []; resources_capacity = capacity }, len)

take_slot : ℕ → ℕ → Option (Option Resource) → DataMessage → Option Resource × DataMessage
take_slot type_id index none m = (none, m)
take_slot type_id index (some none) m = (none, m)
take_slot type_id index (some (some r)) m =
    if r.type_id == type_id
    then (some r, record m { resources = set m.resources index none })
    else (none, m)

-- A resource of another type goes back to its slot.
pub take_downcast : ℕ → ℕ → DataMessage → Option Resource × DataMessage
unfolding take_slot
take_downcast type_id index m = take_slot type_id index (get_elem? m.resources index) m

unwrap_unique : ℕ → Option Resource × DataMessage → Option ℕ × DataMessage
unwrap_unique index (none, m) = (none, m)
unwrap_unique index (some r, m) =
    if r.owners == 1
    then (some r.value, m)
    else (none, record m { resources = set m.resources index (some r) })

-- `Arc::try_unwrap` gives the value of an `Arc` with one owner.
pub take_network_resource : ℕ → ℕ → DataMessage → Option ℕ × DataMessage
unfolding take_downcast unwrap_unique
take_network_resource type_id index m = unwrap_unique index (take_downcast type_id index m)

restore_slot : ℕ → ℕ → ℕ → Option (Option Resource) → DataMessage → Option DataMessage
restore_slot type_id index value none m = none
restore_slot type_id index value (some (some r)) m = none
restore_slot type_id index value (some none) m =
    let r : Resource = record { type_id = type_id; value = value; owners = 1 } in
    some (record m { resources = set m.resources index (some r) })

-- `none` gives the resource back to the caller.
pub restore_network_resource : ℕ → ℕ → ℕ → DataMessage → Option DataMessage
unfolding restore_slot
restore_network_resource type_id index value m =
    restore_slot type_id index value (get_elem? m.resources index) m

pub seek : ℕ → DataMessage → DataMessage
seek index m = record m { read_ptr = index }

pub size : DataMessage → ℕ
size m = length m.buffer

-- `Vec::extend`: the allocation grows when the bytes do not fit.
pub write : Allocator → List ℕ → DataMessage → DataMessage × ℕ
write alloc buf m =
    let needed = length m.buffer + length buf in
    let capacity = if ltb m.buffer_capacity needed then alloc.grow needed else m.buffer_capacity in
    (record m { buffer = m.buffer ++ buf; buffer_capacity = capacity }, length buf)

-- `read` into a buffer of `n` bytes. `none` is the error for a read pointer beyond the buffer.
pub read : ℕ → DataMessage → Option (List ℕ × DataMessage)
read n m =
    let bytes = take n (drop m.read_ptr m.buffer) in
    if ltb (length m.buffer) m.read_ptr
    then none
    else some (bytes, record m { read_ptr = m.read_ptr + length bytes })
