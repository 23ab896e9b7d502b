-- ===== src/Message/Contents.antt =====
-- What a data message holds after any operations of the host: its bytes, and the resources in its
-- slots.
use lunatic.Prelude.{
  ℕ, ◌+◌, ◌≡◌, List, [], ◌∷◌, ◌++◌, Option, none, some, length, if◌then◌else◌, ◌==◌,
}
use lunatic.Message.{
  DataMessage, Resource, Allocator, Tag, new, add_resource, seek, read, write,
  take_network_resource, restore_network_resource,
}

-- The operations on a message, as the host calls them.
pub data Op : Type 0 where
  adds : Resource → Op
  takes : ℕ → ℕ → Op
  restores : ℕ → ℕ → ℕ → Op
  seeks : ℕ → Op
  writes : List ℕ → Op
  reads : ℕ → Op

-- A message and the values that left its slots and that went back into them.
pub record Trace : Type 0 where
  pub message : DataMessage
  pub taken : List ℕ
  pub put_back : List ℕ

left_with : Option ℕ → List ℕ → List ℕ
left_with none vs = vs
left_with (some v) vs = v ∷ vs

or_same : DataMessage → Option DataMessage → DataMessage
or_same m none = m
or_same m (some m') = m'

after_read : DataMessage → Option (List ℕ × DataMessage) → DataMessage
after_read m none = m
after_read m (some (bs, m')) = m'

restored : ℕ → Option DataMessage → List ℕ → List ℕ
restored v none vs = vs
restored v (some m) vs = v ∷ vs

step : Allocator → Trace → Op → Trace
step alloc t (adds r) = record t { message = (add_resource alloc r t.message).0 }
step alloc t (takes type_id i) =
    let (value, m) = take_network_resource type_id i t.message in
    record t { message = m; taken = left_with value t.taken }
step alloc t (restores type_id i v) =
    let result = restore_network_resource type_id i v t.message in
    record t { message = or_same t.message result; put_back = restored v result t.put_back }
step alloc t (seeks i) = record t { message = seek i t.message }
step alloc t (writes buf) = record t { message = (write alloc buf t.message).0 }
step alloc t (reads n) = record t { message = after_read t.message (read n t.message) }

pub run : Allocator → Trace → List Op → Trace
run alloc t [] = t
run alloc t (op ∷ ops) = run alloc (step alloc t op) ops

bytes_of : Op → List ℕ
bytes_of (writes buf) = buf
bytes_of _ = []

-- The bytes that are written, in their order.
pub written : List Op → List ℕ
written [] = []
written (op ∷ ops) = bytes_of op ++ written ops

values_of : Op → List ℕ
values_of (adds r) = r.value ∷ []
values_of _ = []

-- The values of the resources that are added.
pub added : List Op → List ℕ
added [] = []
added (op ∷ ops) = values_of op ++ added ops

one : ℕ → ℕ → ℕ
one v x = if x == v then 1 else 0

pub occurrences : ℕ → List ℕ → ℕ
unfolding one
occurrences v [] = 0
occurrences v (x ∷ xs) = one v x + occurrences v xs

in_slot : ℕ → Option Resource → ℕ
in_slot v none = 0
in_slot v (some r) = one v r.value

pub held : ℕ → List (Option Resource) → ℕ
unfolding in_slot
held v [] = 0
held v (slot ∷ slots) = in_slot v slot + held v slots

-- From `t` to `t'`, with these bytes written and these values added.
record Advances (bytes values : List ℕ) (t t' : Trace) : Type 0 where
  buffer : t'.message.buffer ≡ t.message.buffer ++ bytes
  slots : length t'.message.resources ≡ length t.message.resources + length values
  balance :
      (v : ℕ)
      → held v t'.message.resources + occurrences v t'.taken + occurrences v t.put_back
        ≡ held v t.message.resources
          + occurrences v t.taken
          + occurrences v t'.put_back
          + occurrences v values

-- A new message, from which nothing was taken.
pub start : Allocator → Option Tag → ℕ → Trace
start alloc t capacity = record { message = new alloc t capacity; taken = []; put_back = [] }
