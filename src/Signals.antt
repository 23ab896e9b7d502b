-- ===== src/Signals.antt =====
-- Signal ingress, of crates/lunatic-process/src/state.rs: `SignalSender`, `SignalEnvelope` and the
-- receiving guard, with `Signal` of crates/lunatic-process/src/lib.rs. The bounded channel is its
-- queue. Observers that are built-in processes stand in `observers` under their ids; any other
-- process is a custom one, whose calls are only recorded. Processes and channels are numbers, their
-- identities. The fields of the reload signals that the ingress does not read are left out.
pub mod Reservations
pub mod Sender
mod Admission
mod Sending
mod Headroom
mod Kill
mod Examples
use lunatic.Prelude.{
  ℕ, suc, ◌-◌, max, List, [], ◌∷◌, ◌++◌, Option, none, some, Bool, true, false, ltb, if◌then◌else◌,
  length, is_some,
}
use lunatic.Prelude.Maps
use lunatic.External.Semaphore.{Semaphore}
use lunatic.Message.{
  Message, data_message, link_died, process_died, DeathReason, normal, failure, no_process, Tag,
}
use lunatic.Mailbox.{
  MessageMailbox, MailboxPermit, try_reserve, drop_permit, push_with_permit, u64_or_max, Pushed,
  pushed, rejected,
}

pub data Signal : Type 0 where
  message : Message → Signal
  die_when_link_dies : Bool → Signal
  link : Option Tag → ℕ → Signal
  unlink : ℕ → Signal
  linked_died : ℕ → Option Tag → DeathReason → Signal
  monitor : ℕ → Option ℕ → Signal
  stop_monitoring : ℕ → Signal
  monitored_died : ℕ → DeathReason → Signal
  kill : Signal
  hot_reload rollback : ℕ → Signal

-- A slot in the mailbox of the observer.
pub record MonitorNotification : Type 0 where
  pub observer : ℕ
  pub permit : MailboxPermit

pub record SignalEnvelope : Type 0 where
  pub signal : Signal
  pub mailbox_permit : Option MailboxPermit
  pub data_queue_permit : Bool
  pub monitor_permit : Bool
  pub monitor_notification : Option MonitorNotification

pub data SignalSendError : Type 0 where
  message_too_large too_many_message_resources : Signal → ℕ → ℕ → SignalSendError
  mailbox_full queue_full closed : Signal → SignalSendError

unfoldable pub into_signal : SignalSendError → Signal
into_signal (message_too_large s actual most) = s
into_signal (too_many_message_resources s actual most) = s
into_signal (mailbox_full s) = s
into_signal (queue_full s) = s
into_signal (closed s) = s

-- `none` is a signal that was sent.
abbrev pub Sent : Type 0
Sent = Option SignalSendError

-- The sender's shared state: `is_closed` says that the receiver has closed the channel.
pub record SignalSender (State : Type 0) : Type 0 where
  pub queue : List SignalEnvelope
  pub is_closed : Bool
  pub kill_requested : Bool
  pub death_reason : Option DeathReason
  pub data_admission : State
  pub link_admission : State
  pub monitor_admission : State
  pub message_mailbox : MessageMailbox State
  pub capacity : ℕ
  pub max_message_bytes : ℕ
  pub max_message_resources : ℕ

pub record Observer (State : Type 0) : Type 0 where
  pub is_closed : Bool
  pub message_mailbox : MessageMailbox State

pub record World (State : Type 0) : Type 0 where
  pub sender : SignalSender State
  pub observers : List (ℕ × Observer State)
  pub notified : List (ℕ × (ℕ × DeathReason))
  pub acknowledged : List ℕ

-- Signals that may become a mailbox message.
unfoldable pub reserves_mailbox_capacity : Signal → Bool
reserves_mailbox_capacity (message m) = true
reserves_mailbox_capacity (monitored_died id reason) = true
reserves_mailbox_capacity (linked_died id t normal) = false
reserves_mailbox_capacity (linked_died id t failure) = true
reserves_mailbox_capacity (linked_died id t no_process) = true
reserves_mailbox_capacity _ = false

unfoldable pub is_link : Signal → Bool
is_link (link t process) = true
is_link (unlink id) = true
is_link _ = false

unfoldable pub is_kill : Signal → Bool
is_kill kill = true
is_kill _ = false

unfoldable pub is_monitor : Signal → Bool
is_monitor (monitor process ack) = true
is_monitor _ = false

module _ {State : Type 0} where
  -- Data messages are measured by what they allocate.
  unfoldable pub too_large : SignalSender State → Signal → Sent
  too_large sender (message (data_message m)) =
      let bytes = u64_or_max m.buffer_capacity in
      let resources = u64_or_max m.resources_capacity in
      if ltb sender.max_message_bytes bytes
      then some (message_too_large (message (data_message m)) bytes sender.max_message_bytes)
      else if ltb sender.max_message_resources resources
      then some (
          too_many_message_resources (message (data_message m)) resources
            sender.max_message_resources)
      else none
  too_large sender _ = none

  unfoldable pub set_sender : SignalSender State → World State → World State
  set_sender s world = record world { sender = s }

  unfoldable pub with_envelope : SignalEnvelope → World State → World State
  with_envelope e world = record world { sender = record sender { queue = sender.queue ++ e ∷ [] } }
    where
      open world use {sender}

-- What `Process::reserve_monitor_notification` answers.
pub data Notification (State : Type 0) : Type 0 where
  granted : Option MonitorNotification → World State → Notification State
  observer_full observer_closed : Notification State
