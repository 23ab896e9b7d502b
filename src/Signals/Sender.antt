-- ===== src/Signals/Sender.antt =====
-- `SignalSender::send_inner` and the receiving guard, of crates/lunatic-process/src/state.rs.
use lunatic.Prelude.{
  ℕ, [], ◌∷◌, Option, none, some, true, false, ltb, if◌then◌else◌, length, is_some,
}
use lunatic.External.Semaphore.{Semaphore}
use lunatic.Message.{DeathReason, no_process}
use lunatic.Signals.{
  Signal, MonitorNotification, SignalEnvelope, Sent, SignalSender, World, is_link, is_kill,
  is_monitor, too_large, set_sender, with_envelope, monitor, kill, mailbox_full, queue_full, closed,
  granted, observer_full, observer_closed,
}
use lunatic.Signals.Reservations.{
  drop_notification, complete_exited_monitor, complete_monitor_after_exit, give_back,
  reserve_mailbox, reserve_data, reserve_monitor, reserve_notification,
}

module _ {State : Type 0} (sem : Semaphore State) where
  -- `SignalEnvelope::complete_monitor_after_exit`.
  unfoldable pub complete_envelope :
      ℕ → DeathReason → Signal → Option MonitorNotification → World State → Sent × World State
  complete_envelope process_id reason (monitor process ack) n world =
      (none, complete_exited_monitor sem process ack n process_id reason world)
  complete_envelope process_id reason s n world = (some (closed s), drop_notification sem n world)

  unfoldable pub reason_or_gone : SignalSender State → DeathReason
  reason_or_gone sender = elim sender.death_reason [ none ↦ no_process | some reason ↦ reason ]

  -- `mpsc::Sender::try_send` and what follows when it fails.
  unfoldable pub enqueue : Option ℕ → SignalEnvelope → World State → Sent × World State
  enqueue target e world =
      let sender = world.sender in
      let refunded =
        set_sender
          (give_back sem (is_some e.mailbox_permit) e.data_queue_permit e.monitor_permit sender)
          world in
      if sender.is_closed
      then elim target [
        | none ↦ (some (closed e.signal), drop_notification sem e.monitor_notification refunded)
        | some process_id ↦
            complete_envelope process_id (reason_or_gone sender) e.signal e.monitor_notification
              refunded
      ]
      else if ltb (length sender.queue) sender.capacity
      then (none, with_envelope e world)
      else (some (queue_full e.signal), drop_notification sem e.monitor_notification refunded)

  -- The reservations in their order, and the queue.
  unfoldable pub send_open : Signal → Option ℕ → World State → Sent × World State
  send_open signal target world = elim (too_large world.sender signal) [
    | some e ↦ (some e, world)
    | none ↦ elim (reserve_mailbox sem signal world.sender) [
      | none ↦ (some (mailbox_full signal), world)
      | some (permit, s1) ↦ elim (reserve_data sem (is_some permit) s1) [
        | none ↦ (
          some (queue_full signal),
          set_sender (give_back sem (is_some permit) false false s1) world,
        )
        | some s2 ↦ elim (reserve_monitor sem (is_monitor signal) s2) [
          | none ↦ (
            some (queue_full signal),
            set_sender (give_back sem (is_some permit) (is_some permit) false s2) world,
          )
          | some s3 ↦
              let refunded =
                set_sender (give_back sem (is_some permit) (is_some permit) (is_monitor signal) s3)
                  world in
              elim (reserve_notification sem signal (set_sender s3 world)) [
                | observer_full ↦ (some (mailbox_full signal), refunded)
                | observer_closed ↦ (some (closed signal), refunded)
                | granted n world' ↦
                    enqueue target
                      (record {
                        signal = signal;
                        mailbox_permit = permit;
                        data_queue_permit = is_some permit;
                        monitor_permit = is_monitor signal;
                        monitor_notification = n;
                      })
                      world'
              ]
        ]
      ]
    ]
  ]

  unfoldable pub request_kill : SignalSender State → SignalSender State
  request_kill sender = record sender { kill_requested = true }

  unfoldable pub send_closing : Signal → Option ℕ → World State → Sent × World State
  send_closing signal none world = (some (closed signal), world)
  send_closing signal (some process_id) world =
      complete_monitor_after_exit sem process_id (reason_or_gone world.sender) signal world

  -- A target that has published why it ended answers its monitors from then on.
  unfoldable pub terminal : Option ℕ → SignalSender State → Option (ℕ × DeathReason)
  terminal none sender = none
  terminal (some process_id) sender = elim sender.death_reason [
    | none ↦ none
    | some reason ↦ some (process_id, reason)
  ]

  unfoldable pub send_inner : Signal → Option ℕ → World State → Sent × World State
  send_inner signal target world =
      let live =
        if world.sender.is_closed
        then send_closing signal target world
        else if is_kill signal
        then (none, set_sender (request_kill world.sender) world)
        else send_open signal target world in
      let answered : Sent × World State = elim (terminal target world.sender) [
        | some (process_id, reason) ↦ complete_monitor_after_exit sem process_id reason signal world
        | none ↦ live
      ] in
      if is_link signal then (some (closed signal), world) else answered

  -- `recv`, when something is there.
  unfoldable pub recv : SignalSender State → Option (SignalEnvelope × SignalSender State)
  recv sender =
      let control : SignalEnvelope = record {
        signal = kill;
        mailbox_permit = none;
        data_queue_permit = false;
        monitor_permit = false;
        monitor_notification = none;
      } in
      let queued : Option (SignalEnvelope × SignalSender State) = elim sender.queue [
        | [] ↦ none
        | e ∷ es ↦ some (e, record sender { queue = es })
      ] in
      if sender.kill_requested
      then some (control, record sender { kill_requested = false })
      else queued

  -- The first reason that is published stays.
  unfoldable pub close_with_reason : DeathReason → SignalSender State → SignalSender State
  close_with_reason reason sender = record sender {
    death_reason = some (reason_or reason sender.death_reason);
    is_closed = true;
  }
    where
      reason_or : DeathReason → Option DeathReason → DeathReason
      reason_or r none = r
      reason_or r (some first) = first
