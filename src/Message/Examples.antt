-- ===== src/Message/Examples.antt =====
-- The message theorems at concrete messages.
use lunatic.Prelude.{ℕ, ◌+◌, ◌≡◌, refl, List, [], ◌∷◌, ◌++◌, none, some, arith}
use lunatic.Message.{
  DataMessage, Resource, Allocator, take_network_resource, restore_network_resource, read, write,
  seek, size,
}
use lunatic.Message.Buffer.{read-read, read-write}
use lunatic.Message.Resources.{restore-take, take_network_failed}
use lunatic.Message.Contents.{Op, adds, takes, restores, seeks, writes, reads}

abbrev exact : Allocator
exact = record {
  with_capacity = λ n. n;
  grow = λ n. n;
  with_capacity_fits = λ n. omega arith;
  grow_fits = λ n. omega arith;
}

abbrev socket : Resource
socket = record { type_id = 3; value = 11; owners = 1 }

abbrev shared_module : Resource
shared_module = record { type_id = 5; value = 12; owners = 2 }

abbrev sample : DataMessage
sample = record {
  tag = some 1;
  read_ptr = 1;
  buffer = 10 ∷ 20 ∷ 30 ∷ 40 ∷ [];
  buffer_capacity = 4;
  resources = some socket ∷ some shared_module ∷ [];
  resources_capacity = 2;
}

abbrev without_socket : DataMessage
without_socket = record sample { resources = none ∷ some shared_module ∷ [] }

taken_socket : take_network_resource 3 0 sample ≡ (some 11, without_socket)
unfolding take_network_resource
taken_socket = refl

read_two : read 2 sample ≡ some (20 ∷ 30 ∷ [], record sample { read_ptr = 3 })
unfolding read
read_two = refl

read_past_end : read 2 (record sample { read_ptr = 5 }) ≡ none
unfolding read
read_past_end = refl

read-read_example :
    (bs cs : List ℕ) × (m' m'' : DataMessage) × (read 2 sample ≡ some (bs, m'))
    × (read 5 m' ≡ some (cs, m''))
    × (read (2 + 5) sample ≡ some (bs ++ cs, m''))
unfolding size
read-read_example = read-read 2 5 sample (omega arith)

read-write_example :
    read 2 (seek (size sample) (write exact (50 ∷ 60 ∷ []) sample).0)
    ≡ some (
      50 ∷ 60 ∷ [],
      seek (size sample + 2) (seek (size sample) (write exact (50 ∷ 60 ∷ []) sample).0),
    )
read-write_example = read-write exact (50 ∷ 60 ∷ []) sample

restore-take_example : restore_network_resource 3 0 11 without_socket ≡ some sample
restore-take_example = (restore-take 3 0 11 3 1 sample without_socket taken_socket).0

take_network_failed_example : (take_network_resource 5 1 sample).1 ≡ sample
unfolding take_network_resource
take_network_failed_example = take_network_failed 5 1 sample sample refl

-- A socket that is taken, put back and taken again, and a shared module that stays.
abbrev uses : List Op
uses =
    writes (1 ∷ 2 ∷ 3 ∷ [])
    ∷ adds socket
    ∷ adds shared_module
    ∷ takes 3 0
    ∷ restores 3 0 11
    ∷ takes 5 1
    ∷ takes 3 0
    ∷ seeks 1
    ∷ writes (4 ∷ [])
    ∷ reads 1
    ∷ []
