-- ===== src/Signals/Sending.antt =====
-- `SignalSender::send_inner`, on every path.
use lunatic.Prelude.{
  ℕ, ◌≡◌, inl, inr, refl, ◌∙◌, Option, none, some, true, false, arith, is_some, not, ◌||◌, ◌&&◌,
  ltb, length, Option-cases, Bool-cases,
}
use lunatic.External.Semaphore.{Semaphore}
use lunatic.Mailbox.{MailboxPermit}
use lunatic.Message.{DeathReason}
use lunatic.Signals.{
  Signal, monitor, SignalEnvelope, SignalSender, SignalSendError, Sent, World, Notification,
  granted, observer_full, observer_closed, MonitorNotification, into_signal, closed, mailbox_full,
  too_large, set_sender, with_envelope, is_link, is_kill, is_monitor,
}
use lunatic.Signals.Reservations.{
  reserve_monitor_notification, complete_monitor_after_exit, give_back, reserve_mailbox,
  reserve_data, reserve_monitor, reserve_notification, drop_notification,
}
use lunatic.Signals.Sender.{
  complete_envelope, enqueue, send_open, request_kill, send_closing, terminal, send_inner,
  reason_or_gone,
}
use lunatic.Signals.Admission.{
  Owes, becomes_message, is_marked, reserve_mailbox-message, reserve_mailbox-Owes,
  reserve_data-Owes, reserve_monitor-Owes, give_back-Owes, drop_notification_sender,
  complete_exited_sender, reserve_monitor_sender, Returned, delivered, returned, Conserves,
  unowed-Conserves, same-Conserves, queued-Conserves, IsClean,
}

module _ {State : Type 0} (sem : Semaphore State) where
  unowed-IsClean :
      (signal : Signal) (w w' : World State) (r : Sent)
      → Returned signal r
      → Owes sem false false false w.sender w'.sender
      → IsClean sem signal w (r, w')
  unowed-IsClean signal w w' r ret c = (ret, unowed-Conserves sem w.sender w'.sender c)

  complete-IsClean :
      (id : ℕ) (reason : DeathReason) (signal : Signal) (w : World State)
      → IsClean sem signal w (complete_monitor_after_exit sem id reason signal w)
  unfolding complete_monitor_after_exit into_signal
  complete-IsClean id reason (monitor process ack) w = go _ refl
    where
      go :
          (n : Notification State)
          → reserve_monitor_notification sem process w ≡ n
          → IsClean sem
              (monitor process ack)
              w
              (complete_monitor_after_exit sem id reason (monitor process ack) w)
      go (granted n w') e =
          rw (e, complete_monitor_after_exit)
            (
              delivered,
              same-Conserves sem w.sender _ (
                  complete_exited_sender sem process ack n id reason w'
                  ∙ reserve_monitor_sender sem process w w' n e),
            )
      go observer_full e =
          rw (e, complete_monitor_after_exit)
            (returned _ refl, same-Conserves sem w.sender w.sender refl)
      go observer_closed e =
          rw (e, complete_monitor_after_exit)
            (returned _ refl, same-Conserves sem w.sender w.sender refl)
  complete-IsClean id reason s w = (returned _ refl, same-Conserves sem w.sender w.sender refl)

  too_large-Returned :
      (s : SignalSender State) (signal : Signal) (e : SignalSendError)
      → too_large s signal ≡ some e
      → into_signal e ≡ signal
  unfolding too_large into_signal
  too_large-Returned s signal e h = ground arith

  notification_sender :
      (signal : Signal) (w w' : World State) (n : Option MonitorNotification)
      → reserve_notification sem signal w ≡ granted n w'
      → w'.sender ≡ w.sender
  unfolding reserve_notification
  notification_sender (monitor process ack) w w' n h = reserve_monitor_sender sem process w w' n h
  notification_sender signal w w' n h = ground arith

  complete_envelope-Returned :
      (id : ℕ) (reason : DeathReason) (signal : Signal) (n : Option MonitorNotification)
      (w : World State)
      → Returned signal (complete_envelope sem id reason signal n w).0
  unfolding complete_envelope into_signal
  complete_envelope-Returned id reason (monitor process ack) n w = delivered
  complete_envelope-Returned id reason signal n w = returned _ refl

  complete_envelope_sender :
      (id : ℕ) (reason : DeathReason) (signal : Signal) (n : Option MonitorNotification)
      (w : World State)
      → (complete_envelope sem id reason signal n w).1.sender ≡ w.sender
  unfolding complete_envelope
  complete_envelope_sender id reason (monitor process ack) n w =
      complete_exited_sender sem process ack n id reason w
  complete_envelope_sender id reason signal n w = drop_notification_sender sem n w

  queued-IsClean :
      (e : SignalEnvelope) (w w' : World State)
      → Owes sem (is_some e.mailbox_permit) e.data_queue_permit e.monitor_permit w.sender w'.sender
      → ltb (length w'.sender.queue) w'.sender.capacity ≡ true
      → is_marked e ≡ true
      → IsClean sem e.signal w (none, with_envelope e w')
  unfolding with_envelope
  queued-IsClean e w w' c room marked =
      (delivered, queued-Conserves sem e w.sender w'.sender c (ground arith) marked)

  -- Permits that a send has taken go into the queue or come back.
  enqueue-IsClean :
      (target : Option ℕ) (e : SignalEnvelope) (w w' : World State)
      → Owes sem (is_some e.mailbox_permit) e.data_queue_permit e.monitor_permit w.sender w'.sender
      → is_marked e ≡ true
      → IsClean sem e.signal w (enqueue sem target e w')
  unfolding enqueue set_sender into_signal
  enqueue-IsClean target e w w' c marked = elim (Bool-cases w'.sender.is_closed) [
    | inl shut ↦ simp (shut, enqueue) (closing target)
    | inr live ↦ elim (Bool-cases (ltb (length w'.sender.queue) w'.sender.capacity)) [
      | inl room ↦ simp (live, room, enqueue) (queued-IsClean e w w' c room marked)
      | inr full ↦ simp (live, full, enqueue) (returned _ refl, dropped)
    ]
  ]
    where
      refunded : World State
      refunded =
          set_sender
            (give_back sem (is_some e.mailbox_permit) e.data_queue_permit e.monitor_permit
              w'.sender)
            w'

      dropped :
          Conserves sem w.sender (drop_notification sem e.monitor_notification refunded).sender
      dropped =
          rw (drop_notification_sender sem e.monitor_notification refunded)
            (unowed-Conserves sem w.sender _ (give_back-Owes sem _ _ _ w.sender w'.sender c))

      closing :
          (t : Option ℕ)
          → IsClean sem e.signal w (elim t [
            | none ↦ (some (closed e.signal), drop_notification sem e.monitor_notification refunded)
            | some process_id ↦
                complete_envelope sem process_id
                  (reason_or_gone sem w'.sender)
                  e.signal
                  e.monitor_notification
                  refunded
          ])
      closing none = (returned _ refl, dropped)
      closing (some id) = (
        complete_envelope-Returned id _ e.signal e.monitor_notification refunded,
        rw
            (complete_envelope_sender id (reason_or_gone sem w'.sender) e.signal
              e.monitor_notification refunded)
            (unowed-Conserves sem w.sender _ (give_back-Owes sem _ _ _ w.sender w'.sender c)),
      )

  notified-IsClean :
      (signal : Signal) (target : Option ℕ) (p : Option MailboxPermit) (w : World State)
      (s3 : SignalSender State)
      → Owes sem (is_some p) (is_some p) (is_monitor signal) w.sender s3
      → (not (becomes_message signal) || (is_some p && is_some p)) ≡ true
      → (r : Notification State) → reserve_notification sem signal (set_sender s3 w) ≡ r
      → IsClean sem signal w (elim r [
        | observer_full ↦ (
          some (mailbox_full signal),
          set_sender (give_back sem (is_some p) (is_some p) (is_monitor signal) s3) w,
        )
        | observer_closed ↦ (
          some (closed signal),
          set_sender (give_back sem (is_some p) (is_some p) (is_monitor signal) s3) w,
        )
        | granted n w' ↦
            enqueue sem target
              (record {
                signal = signal;
                mailbox_permit = p;
                data_queue_permit = is_some p;
                monitor_permit = is_monitor signal;
                monitor_notification = n;
              })
              w'
      ])
  unfolding into_signal set_sender
  notified-IsClean signal target p w s3 c marked observer_full e =
      (returned _ refl, unowed-Conserves sem w.sender _ (give_back-Owes sem _ _ _ w.sender s3 c))
  notified-IsClean signal target p w s3 c marked observer_closed e =
      (returned _ refl, unowed-Conserves sem w.sender _ (give_back-Owes sem _ _ _ w.sender s3 c))
  notified-IsClean signal target p w s3 c marked (granted n w') e =
      enqueue-IsClean target _ w w' (rw (notification_sender signal (set_sender s3 w) w' n e) c)
        marked

  send_open-IsClean :
      (signal : Signal) (target : Option ℕ) (w : World State)
      → IsClean sem signal w (send_open sem signal target w)
  unfolding send_open into_signal set_sender
  send_open-IsClean signal target w = elim (Option-cases (too_large w.sender signal)) [
    | inr (e, big) ↦
        rw (big, send_open)
          (
            returned e (too_large-Returned w.sender signal e big),
            same-Conserves sem w.sender w.sender refl,
          )
    | inl within ↦ elim (Option-cases (reserve_mailbox sem signal w.sender)) [
      | inl full ↦
          rw (within, full, send_open) (returned _ refl, same-Conserves sem w.sender w.sender refl)
      | inr ((p, s1), took) ↦
          let c1 = reserve_mailbox-Owes sem signal w.sender s1 p took in
          elim (Option-cases (reserve_data sem (is_some p) s1)) [
            | inl full ↦
                rw (within, took, full, send_open)
                  (
                    returned _ refl,
                    unowed-Conserves sem w.sender _ (give_back-Owes sem _ _ _ w.sender s1 c1),
                  )
            | inr (s2, data_took) ↦
                let c2 = reserve_data-Owes sem _ _ w.sender s1 s2 c1 data_took in
                elim (Option-cases (reserve_monitor sem (is_monitor signal) s2)) [
                  | inl full ↦
                      rw (within, took, data_took, full, send_open)
                        (
                          returned _ refl,
                          unowed-Conserves sem w.sender _ (give_back-Owes sem _ _ _ w.sender s2 c2),
                        )
                  | inr (s3, monitor_took) ↦
                      rw (within, took, data_took, monitor_took, send_open)
                        (notified-IsClean signal target p w s3
                          (reserve_monitor-Owes sem _ _ _ w.sender s2 s3 c2 monitor_took)
                          (reserve_mailbox-message sem signal w.sender s1 p took) _ refl)
                ]
          ]
    ]
  ]

  killed-IsClean :
      (signal : Signal) (w : World State)
      → IsClean sem signal w (none, set_sender (request_kill sem w.sender) w)
  unfolding set_sender request_kill
  killed-IsClean signal w = (
    delivered,
    unowed-Conserves sem w.sender _ (record {
      mailbox_owed = omega arith;
      data_owed = omega arith;
      monitor_owed = omega arith;
      queue_same = refl;
      capacity_same = refl;
    }),
  )

  -- Whatever the signal, the target and the state, a send that fails returns the signal that it was
  -- given. Succeeding or not, it loses none of the slots of the mailbox, of the data permits and of
  -- the monitor permits: each is free or with a signal in the queue; and it changes the queue only
  -- by putting signals behind it, within its capacity, those that may become a message with a
  -- data permit and a slot of the mailbox.
  pub send_inner-IsClean :
      (signal : Signal) (target : Option ℕ) (w : World State)
      → IsClean sem signal w (send_inner sem signal target w)
  unfolding send_inner send_closing into_signal
  send_inner-IsClean signal target w = elim (Bool-cases (is_link signal)) [
    | inl one_sided ↦
        rw (one_sided, send_inner) (returned _ refl, same-Conserves sem w.sender w.sender refl)
    | inr other ↦ elim (Option-cases (terminal sem target w.sender)) [
      | inr ((id, reason), ended) ↦
          rw (other, ended, send_inner) (complete-IsClean id reason signal w)
      | inl running ↦ elim (Bool-cases w.sender.is_closed) [
        | inl shut ↦ simp (other, running, shut, send_inner) (closing target)
        | inr live ↦ elim (Bool-cases (is_kill signal)) [
          | inl killing ↦ simp (other, running, live, killing, send_inner) (killed-IsClean signal w)
          | inr sent ↦
              simp (other, running, live, sent, send_inner) (send_open-IsClean signal target w)
        ]
      ]
    ]
  ]
    where
      closing : (t : Option ℕ) → IsClean sem signal w (send_closing sem signal t w)
      closing none = (returned _ refl, same-Conserves sem w.sender w.sender refl)
      closing (some id) = complete-IsClean id (reason_or_gone sem w.sender) signal w
