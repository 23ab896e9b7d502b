-- ===== src/Signals/Reservations.antt =====
-- What a send reserves and gives back, of crates/lunatic-process/src/state.rs: slots of the mailbox
-- and of an observer's, data and monitor permits; and the answers to monitors of processes that are
-- gone.
use lunatic.Prelude.{
  ℕ, ◌-◌, max, [], ◌∷◌, Option, none, some, Bool, true, false, ltb, if◌then◌else◌,
}
use lunatic.Prelude.Maps
use lunatic.External.Semaphore.{Semaphore}
use lunatic.Message.{process_died, DeathReason}
use lunatic.Mailbox.{
  MessageMailbox, MailboxPermit, try_reserve, drop_permit, push_with_permit, pushed, rejected,
}
use lunatic.Signals.{
  Signal, MonitorNotification, Sent, SignalSender, Observer, World, reserves_mailbox_capacity,
  Notification, monitor, mailbox_full, closed, granted, observer_full, observer_closed,
}

module _ {State : Type 0} (sem : Semaphore State) where
  unfoldable pub signal_mailbox_with_limits :
      ℕ → MessageMailbox State → ℕ → ℕ → Option (SignalSender State)
  signal_mailbox_with_limits signal_capacity message_mailbox max_message_bytes
        max_message_resources =
      if ltb 0 signal_capacity
      then some (record {
        queue = [];
        is_closed = false;
        kill_requested = false;
        death_reason = none;
        data_admission = sem.new (max (signal_capacity - 1) 1);
        link_admission = sem.new signal_capacity;
        monitor_admission = sem.new signal_capacity;
        message_mailbox = message_mailbox;
        capacity = signal_capacity;
        max_message_bytes = max_message_bytes;
        max_message_resources = max_message_resources;
      })
      else none

  unfoldable pub reserve_at : ℕ → Observer State → World State → Notification State
  reserve_at process observer world =
      let reserved : Notification State = elim (try_reserve sem observer.message_mailbox) [
        | none ↦ observer_full
        | some (permit, mailbox) ↦
            granted (some (record { observer = process; permit = permit })) (record world {
              observers =
                  Maps.insert process (record observer { message_mailbox = mailbox })
                    world.observers;
            })
      ] in
      if observer.is_closed then observer_closed else reserved

  unfoldable pub reserve_monitor_notification : ℕ → World State → Notification State
  reserve_monitor_notification process world = elim (Maps.get world.observers process) [
    | none ↦ granted none world
    | some observer ↦ reserve_at process observer world
  ]

  -- A push that fails drops its message and permit.
  unfoldable pub deliver_at :
      ℕ → MonitorNotification → DeathReason → Observer State → Observer State
  deliver_at process_id notification reason observer =
      let (result, mailbox) =
        push_with_permit observer.message_mailbox (process_died process_id reason)
          notification.permit in
      elim result [
        | pushed woken ↦ record observer { message_mailbox = mailbox }
        | rejected e ↦ record observer { message_mailbox = drop_permit sem mailbox }
      ]

  unfoldable pub deliver : MonitorNotification → ℕ → DeathReason → World State → World State
  deliver notification process_id reason world =
      elim (Maps.get world.observers notification.observer) [
        | none ↦ world
        | some observer ↦ record world {
          observers =
              Maps.insert notification.observer (deliver_at process_id notification reason observer)
                world.observers;
        }
      ]

  -- The drop of a notification that is not delivered.
  unfoldable pub drop_notification : Option MonitorNotification → World State → World State
  drop_notification none world = world
  drop_notification (some n) world = elim (Maps.get world.observers n.observer) [
    | none ↦ world
    | some observer ↦ record world {
      observers =
          Maps.insert n.observer
            (record observer { message_mailbox = drop_permit sem observer.message_mailbox })
            world.observers;
    }
  ]

  unfoldable pub acknowledge : Option ℕ → World State → World State
  acknowledge none world = world
  acknowledge (some ack) world = record world { acknowledged = ack ∷ world.acknowledged }

  -- A monitor of a process that is gone is answered at once.
  unfoldable pub complete_exited_monitor :
      ℕ → Option ℕ → Option MonitorNotification → ℕ → DeathReason → World State → World State
  complete_exited_monitor observer ack none process_id reason world =
      acknowledge ack
        (record world { notified = (observer, (process_id, reason)) ∷ world.notified })
  complete_exited_monitor observer ack (some n) process_id reason world =
      acknowledge ack (deliver n process_id reason world)

  unfoldable pub complete_monitor_after_exit :
      ℕ → DeathReason → Signal → World State → Sent × World State
  complete_monitor_after_exit process_id reason (monitor process ack) world =
      elim (reserve_monitor_notification process world) [
        | granted notification world' ↦
            (none, complete_exited_monitor process ack notification process_id reason world')
        | observer_full ↦ (some (mailbox_full (monitor process ack)), world)
        | observer_closed ↦ (some (closed (monitor process ack)), world)
      ]
  complete_monitor_after_exit process_id reason s world = (some (closed s), world)

  -- The drop of the permits that a failing send holds.
  unfoldable pub give_back : Bool → Bool → Bool → SignalSender State → SignalSender State
  give_back mailbox data_queue monitors sender = record sender {
    message_mailbox =
        if mailbox then drop_permit sem sender.message_mailbox else sender.message_mailbox;
    data_admission =
        if data_queue then sem.release sender.data_admission else sender.data_admission;
    monitor_admission =
        if monitors then sem.release sender.monitor_admission else sender.monitor_admission;
  }

  unfoldable pub reserve_mailbox :
      Signal → SignalSender State → Option (Option MailboxPermit × SignalSender State)
  reserve_mailbox signal sender =
      let reserved : Option (Option MailboxPermit × SignalSender State) =
        elim (try_reserve sem sender.message_mailbox) [
          | none ↦ none
          | some (permit, mailbox) ↦ some (some permit, record sender { message_mailbox = mailbox })
        ] in
      if reserves_mailbox_capacity signal then reserved else some (none, sender)

  unfoldable pub reserve_data : Bool → SignalSender State → Option (SignalSender State)
  reserve_data false sender = some sender
  reserve_data true sender = elim (sem.try_acquire_owned sender.data_admission) [
    | none ↦ none
    | some s ↦ some (record sender { data_admission = s })
  ]

  unfoldable pub reserve_monitor : Bool → SignalSender State → Option (SignalSender State)
  reserve_monitor false sender = some sender
  reserve_monitor true sender = elim (sem.try_acquire_owned sender.monitor_admission) [
    | none ↦ none
    | some s ↦ some (record sender { monitor_admission = s })
  ]

  unfoldable pub reserve_notification : Signal → World State → Notification State
  reserve_notification (monitor process ack) world = reserve_monitor_notification process world
  reserve_notification _ world = granted none world
