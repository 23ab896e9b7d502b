-- ===== src/Signals/Admission.antt =====
-- The reservations of a signal: what a send takes, and what it gives back when it fails.
use lunatic.Prelude.{
  ℕ, ◌+◌, ◌≤◌, ◌<◌, max, append-nil, ◌≡◌, refl, sym, ◌∙◌, List, [], ◌∷◌, ◌++◌, Option, none, some,
  Bool, not, ◌&&◌, ◌||◌, true, false, arith, if◌then◌else◌, is_some, length, length-append,
}
use lunatic.External.Semaphore.{Semaphore}
use lunatic.Mailbox.{try_reserve, drop_permit, MailboxPermit}
use lunatic.Message.{DeathReason, normal}
use lunatic.Signals.{
  Signal, message, monitored_died, linked_died, reserves_mailbox_capacity, SignalEnvelope,
  SignalSender, SignalSendError, Sent, World, granted, MonitorNotification, into_signal,
}
use lunatic.Signals.Reservations.{
  reserve_at, reserve_monitor_notification, deliver, acknowledge, complete_exited_monitor,
  give_back, reserve_mailbox, reserve_data, reserve_monitor, drop_notification,
}

-- A send that fails returns the signal that it was given.
pub data Returned (signal : Signal) : Sent → Type 0 where
  delivered : Returned signal none
  returned : (e : SignalSendError) → into_signal e ≡ signal → Returned signal (some e)

-- The signals that a process may turn into a message of its mailbox: messages, the end of a process
-- that it monitors, and that of a process that it is linked to unless it ended normally.
unfoldable pub becomes_message : Signal → Bool
becomes_message (message m) = true
becomes_message (monitored_died id reason) = true
becomes_message (linked_died id t normal) = false
becomes_message (linked_died id t reason) = true
becomes_message _ = false

-- Whether a signal that may become a message holds a data permit and a slot of the mailbox.
abbrev pub is_marked : SignalEnvelope → Bool
is_marked e = not (becomes_message e.signal) || (e.data_queue_permit && is_some e.mailbox_permit)

unfoldable pub all_marked : List SignalEnvelope → Bool
all_marked [] = true
all_marked (e ∷ es) = is_marked e && all_marked es

abbrev pub bit : Bool → ℕ
bit b = if b then 1 else 0

module _ {State : Type 0} (sem : Semaphore State) where
  -- What `s'` has less than `s`.
  pub record Owes (m d o : Bool) (s s' : SignalSender State) : Type 0 where
    pub mailbox_owed :
        sem.available_permits s'.message_mailbox.admission + bit m
        ≡ sem.available_permits s.message_mailbox.admission
    pub data_owed :
        sem.available_permits s'.data_admission + bit d ≡ sem.available_permits s.data_admission
    pub monitor_owed :
        sem.available_permits s'.monitor_admission + bit o
        ≡ sem.available_permits s.monitor_admission
    pub queue_same : s'.queue ≡ s.queue
    pub capacity_same : s'.capacity ≡ s.capacity

  pub Owes-refl : (s : SignalSender State) → Owes false false false s s
  Owes-refl s = record {
    mailbox_owed = omega arith;
    data_owed = omega arith;
    monitor_owed = omega arith;
    queue_same = refl;
    capacity_same = refl;
  }

  pub reserve_mailbox-Owes :
      (signal : Signal) (s s' : SignalSender State) (p : Option MailboxPermit)
      → reserve_mailbox sem signal s ≡ some (p, s')
      → Owes (is_some p) false false s s'
  unfolding reserve_mailbox try_reserve
  reserve_mailbox-Owes signal s s' p h = record {
    mailbox_owed = ground (arith, sem.try_acquire-Acquires s.message_mailbox.admission);
    data_owed = ground arith;
    monitor_owed = ground arith;
    queue_same = ground arith;
    capacity_same = ground arith;
  }

  -- A signal that may become a message has a slot of the mailbox once it is admitted.
  pub reserve_mailbox-message :
      (signal : Signal) (s s' : SignalSender State) (p : Option MailboxPermit)
      → reserve_mailbox sem signal s ≡ some (p, s')
      → (not (becomes_message signal) || (is_some p && is_some p)) ≡ true
  unfolding reserve_mailbox becomes_message reserves_mailbox_capacity
  reserve_mailbox-message (linked_died id t normal) s s' p h = refl
  reserve_mailbox-message signal s s' p h = ground arith

  pub reserve_data-Owes :
      (m b : Bool) (s s1 s2 : SignalSender State)
      → Owes m false false s s1
      → reserve_data sem b s1 ≡ some s2
      → Owes m b false s s2
  unfolding reserve_data
  reserve_data-Owes m false s s1 s2 c h = record {
    mailbox_owed = ground (arith, c.mailbox_owed);
    data_owed = ground (arith, c.data_owed);
    monitor_owed = ground (arith, c.monitor_owed);
    queue_same = ground (arith, c.queue_same);
    capacity_same = ground (arith, c.capacity_same);
  }
  reserve_data-Owes m true s s1 s2 c h = record {
    mailbox_owed = ground (arith, c.mailbox_owed);
    data_owed = ground (arith, c.data_owed, sem.try_acquire-Acquires s1.data_admission);
    monitor_owed = ground (arith, c.monitor_owed);
    queue_same = ground (arith, c.queue_same);
    capacity_same = ground (arith, c.capacity_same);
  }

  pub reserve_monitor-Owes :
      (m d b : Bool) (s s1 s2 : SignalSender State)
      → Owes m d false s s1
      → reserve_monitor sem b s1 ≡ some s2
      → Owes m d b s s2
  unfolding reserve_monitor
  reserve_monitor-Owes m d false s s1 s2 c h = record {
    mailbox_owed = ground (arith, c.mailbox_owed);
    data_owed = ground (arith, c.data_owed);
    monitor_owed = ground (arith, c.monitor_owed);
    queue_same = ground (arith, c.queue_same);
    capacity_same = ground (arith, c.capacity_same);
  }
  reserve_monitor-Owes m d true s s1 s2 c h = record {
    mailbox_owed = ground (arith, c.mailbox_owed);
    data_owed = ground (arith, c.data_owed);
    monitor_owed = ground (arith, c.monitor_owed, sem.try_acquire-Acquires s1.monitor_admission);
    queue_same = ground (arith, c.queue_same);
    capacity_same = ground (arith, c.capacity_same);
  }

  pub give_back-Owes :
      (m d o : Bool) (s s' : SignalSender State)
      → Owes m d o s s'
      → Owes false false false s (give_back sem m d o s')
  unfolding give_back drop_permit
  give_back-Owes m d o s s' c = record {
    mailbox_owed =
        ground (arith, c.mailbox_owed, sem.available-release s'.message_mailbox.admission);
    data_owed = ground (arith, c.data_owed, sem.available-release s'.data_admission);
    monitor_owed = ground (arith, c.monitor_owed, sem.available-release s'.monitor_admission);
    queue_same = c.queue_same;
    capacity_same = c.capacity_same;
  }

  pub drop_notification_sender :
      (n : Option MonitorNotification) (w : World State)
      → (drop_notification sem n w).sender ≡ w.sender
  unfolding drop_notification
  drop_notification_sender none w = refl
  drop_notification_sender (some n) w = ground arith

  pub complete_exited_sender :
      (observer : ℕ) (ack : Option ℕ) (n : Option MonitorNotification) (id : ℕ)
      (reason : DeathReason) (w : World State)
      → (complete_exited_monitor sem observer ack n id reason w).sender ≡ w.sender
  unfolding complete_exited_monitor acknowledge deliver
  complete_exited_sender observer none none id reason w = refl
  complete_exited_sender observer (some a) none id reason w = refl
  complete_exited_sender observer none (some n) id reason w = ground arith
  complete_exited_sender observer (some a) (some n) id reason w = ground arith

  pub reserve_monitor_sender :
      (process : ℕ) (w w' : World State) (n : Option MonitorNotification)
      → reserve_monitor_notification sem process w ≡ granted n w'
      → w'.sender ≡ w.sender
  unfolding reserve_monitor_notification reserve_at
  reserve_monitor_sender process w w' n h = ground arith

  -- The permits of a kind in the queue.
  unfoldable pub carried : (SignalEnvelope → Bool) → List SignalEnvelope → ℕ
  carried p [] = 0
  carried p (e ∷ es) = bit (p e) + carried p es

  carried-append :
      (p : SignalEnvelope → Bool) (es : List SignalEnvelope) (e : SignalEnvelope)
      → carried p (es ++ e ∷ []) ≡ carried p es + bit (p e)
  unfolding carried
  carried-append p [] e = omega arith
  carried-append p (x ∷ es) e = omega (arith, carried-append p es e)

  abbrev pub holds_slot : SignalEnvelope → Bool
  holds_slot e = is_some e.mailbox_permit

  abbrev pub holds_data : SignalEnvelope → Bool
  holds_data e = e.data_queue_permit

  abbrev pub holds_monitor : SignalEnvelope → Bool
  holds_monitor e = e.monitor_permit

  -- The permits of a sender, free or in the queue, are all accounted for, and the queue stays
  -- within its capacity.
  pub record Conserves (s s' : SignalSender State) : Type 0 where
    pub mailbox_slots :
        sem.available_permits s'.message_mailbox.admission + carried holds_slot s'.queue
        ≡ sem.available_permits s.message_mailbox.admission + carried holds_slot s.queue
    pub data_slots :
        sem.available_permits s'.data_admission + carried holds_data s'.queue
        ≡ sem.available_permits s.data_admission + carried holds_data s.queue
    pub monitor_slots :
        sem.available_permits s'.monitor_admission + carried holds_monitor s'.queue
        ≡ sem.available_permits s.monitor_admission + carried holds_monitor s.queue
    pub queue_bounded : length s'.queue ≤ max (length s.queue) s.capacity
    pub capacity_kept : s'.capacity ≡ s.capacity
    pub queue_kept :
        (new : List SignalEnvelope) × (s'.queue ≡ s.queue ++ new) × (all_marked new ≡ true)

  pub unowed-Conserves : (s s' : SignalSender State) → Owes false false false s s' → Conserves s s'
  unfolding all_marked
  unowed-Conserves s s' c = record {
    mailbox_slots = rw (c.queue_same) (omega (arith, c.mailbox_owed));
    data_slots = rw (c.queue_same) (omega (arith, c.data_owed));
    monitor_slots = rw (c.queue_same) (omega (arith, c.monitor_owed));
    queue_bounded = rw (c.queue_same) (omega arith);
    capacity_kept = c.capacity_same;
    queue_kept = ([], c.queue_same ∙ sym (append-nil s.queue), refl);
  }

  pub same-Conserves : (s s' : SignalSender State) → s' ≡ s → Conserves s s'
  same-Conserves s s' e = rw e (unowed-Conserves s s (Owes-refl s))

  pub queued-Conserves :
      (e : SignalEnvelope) (s s' : SignalSender State)
      → Owes (holds_slot e) e.data_queue_permit e.monitor_permit s s'
      → length s'.queue < s'.capacity
      → is_marked e ≡ true
      → Conserves s (record s' { queue = s'.queue ++ e ∷ [] })
  unfolding all_marked
  queued-Conserves e s s' c h marked = rw (c.queue_same) (record {
    mailbox_slots = omega (arith, c.mailbox_owed, carried-append holds_slot s.queue e);
    data_slots = omega (arith, c.data_owed, carried-append holds_data s.queue e);
    monitor_slots = omega (arith, c.monitor_owed, carried-append holds_monitor s.queue e);
    queue_bounded = ground (arith, c.queue_same, c.capacity_same, length-append s.queue (e ∷ []));
    capacity_kept = c.capacity_same;
    queue_kept = (e ∷ [], refl, ground (arith, marked));
  })

  -- The result of a send and the sender after it.
  abbrev pub IsClean : Signal → World State → Sent × World State → Type 0
  IsClean signal w (r, w') = Returned signal r × Conserves w.sender w'.sender
