-- ===== src/Signals/Examples.antt =====
-- The signal ingress at concrete values.
use lunatic.Prelude.{ℕ, List, [], ◌∷◌, none, some, true, false, refl, length, ◌≤◌}
use lunatic.External.Semaphore.{counting}
use lunatic.Message.{link_died}
use lunatic.Mailbox.{MessageMailbox}
use lunatic.Signals.{message, monitor, die_when_link_dies, SignalSender, SignalEnvelope, World}
use lunatic.Signals.Reservations.{signal_mailbox_with_limits}
use lunatic.Signals.Sender.{send_inner}
use lunatic.Signals.Admission.{IsClean}
use lunatic.Signals.Headroom.{Call, sends, receives, run, count_messages, run-queue}
use lunatic.Signals.Sending.{send_inner-IsClean}
use lunatic.Signals.Kill.{Kills, recv-send_kill}

abbrev mailbox : ℕ → ℕ → MessageMailbox ℕ
mailbox id free = record {
  inner = record { waker = none; tags = none; found = none; messages = [] };
  admission_id = id;
  admission = free;
  capacity = 2;
  max_message_bytes = 100;
  max_message_resources = 4;
}

abbrev waiting : SignalEnvelope
waiting = record {
  signal = die_when_link_dies false;
  mailbox_permit = none;
  data_queue_permit = false;
  monitor_permit = false;
  monitor_notification = none;
}

-- A queue with all of its two slots taken.
abbrev sender : SignalSender ℕ
sender = record {
  queue = waiting ∷ waiting ∷ [];
  is_closed = false;
  kill_requested = false;
  death_reason = none;
  data_admission = 1;
  link_admission = 2;
  monitor_admission = 2;
  message_mailbox = mailbox 1 2;
  capacity = 2;
  max_message_bytes = 100;
  max_message_resources = 4;
}

abbrev world : World ℕ
world = record {
  sender = sender;
  observers = (9, record { is_closed = false; message_mailbox = mailbox 2 1 }) ∷ [];
  notified = [];
  acknowledged = [];
}

send_inner-IsClean_example :
    IsClean counting (monitor 9 none) world (send_inner counting (monitor 9 none) (some 5) world)
send_inner-IsClean_example = send_inner-IsClean counting (monitor 9 none) (some 5) world

recv-send_kill_example : Kills counting world (some 5)
recv-send_kill_example = recv-send_kill counting world (some 5) refl refl

-- A message that is received, then three for a queue of three places, and a control signal.
abbrev new_world : World ℕ
new_world = record world {
  sender = record sender {
    queue = [];
    data_admission = 2;
    link_admission = 3;
    monitor_admission = 3;
    message_mailbox = mailbox 1 5;
    capacity = 3;
  };
}

abbrev flood : List Call
flood =
    sends (message (link_died none)) none
    ∷ receives
    ∷ sends (message (link_died none)) none
    ∷ sends (message (link_died none)) none
    ∷ sends (message (link_died none)) none
    ∷ sends (die_when_link_dies false) none
    ∷ []

-- A message as it stands in the queue.
abbrev admitted : SignalEnvelope
admitted = record {
  signal = message (link_died none);
  mailbox_permit = some (record { semaphore = 1 });
  data_queue_permit = true;
  monitor_permit = false;
  monitor_notification = none;
}

run-queue_example :
    (length (run counting flood new_world).sender.queue ≤ 3)
    × (count_messages (run counting flood new_world).sender.queue ≤ 2)
unfolding signal_mailbox_with_limits
run-queue_example = run-queue counting 3 100 4 (mailbox 1 5) flood new_world refl
