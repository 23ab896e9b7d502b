-- ===== src/Signals/Headroom.antt =====
-- The slot of the queue that is kept from messages.
use lunatic.Prelude.{
  ℕ, ◌+◌, ◌-◌, ◌≤◌, max, ◌≡◌, ◌⊎◌, inl, inr, refl, ap, ◌∙◌, ◌++◌, List, [], ◌∷◌, Option, none, some,
  true, false, arith, is_some, length, Option-cases, Bool-cases,
}
use lunatic.External.Semaphore.{Semaphore}
use lunatic.Mailbox.{MessageMailbox}
use lunatic.Message.{DeathReason}
use lunatic.Signals.{Signal, SignalEnvelope, SignalSender, World, set_sender}
use lunatic.Signals.Reservations.{give_back, drop_notification, signal_mailbox_with_limits}
use lunatic.Signals.Sender.{send_inner, recv, close_with_reason}
use lunatic.Signals.Admission.{
  bit, becomes_message, all_marked, Conserves, carried, holds_data, drop_notification_sender,
}
use lunatic.Signals.Sending.{send_inner-IsClean}

pub data Call : Type 0 where
  sends : Signal → Option ℕ → Call
  receives : Call
  closes : DeathReason → Call

-- The signals of a queue that may become a message.
unfoldable pub count_messages : List SignalEnvelope → ℕ
count_messages [] = 0
count_messages (e ∷ es) = bit (becomes_message e.signal) + count_messages es

all_marked-append :
    (es fs : List SignalEnvelope)
    → all_marked es ≡ true
    → all_marked fs ≡ true
    → all_marked (es ++ fs) ≡ true
unfolding all_marked
all_marked-append [] fs h k = k
all_marked-append (e ∷ es) fs h k = ground (arith, h, all_marked-append es fs (ground (arith, h)) k)

module _ {State : Type 0} (sem : Semaphore State) where
  -- The receiver takes a signal out of its envelope, which drops its permits.
  unfoldable pub step : Call → World State → World State
  step (sends signal target) w = (send_inner sem signal target w).1
  step receives w = elim (recv sem w.sender) [
    | none ↦ w
    | some (e, s) ↦ drop_notification sem e.monitor_notification (
        set_sender (give_back sem (is_some e.mailbox_permit) e.data_queue_permit e.monitor_permit s)
          w)
  ]
  step (closes reason) w = set_sender (close_with_reason sem reason w.sender) w

  unfoldable pub run : List Call → World State → World State
  run [] w = w
  run (call ∷ calls) w = run calls (step call w)

  pub record HasHeadroom (capacity : ℕ) (s : SignalSender State) : Type 0 where
    pub data_permits :
        sem.available_permits s.data_admission + carried sem (holds_data sem) s.queue
        ≡ max (capacity - 1) 1
    pub within : length s.queue ≤ capacity
    pub same_capacity : s.capacity ≡ capacity
    pub marked : all_marked s.queue ≡ true

  sent-HasHeadroom :
      (capacity : ℕ) (s s' : SignalSender State)
      → Conserves sem s s'
      → HasHeadroom capacity s
      → HasHeadroom capacity s'
  sent-HasHeadroom capacity s s' c h = record {
    data_permits = c.data_slots ∙ h.data_permits;
    within = omega (arith, c.queue_bounded, h.within, h.same_capacity);
    same_capacity = c.capacity_kept ∙ h.same_capacity;
    marked =
        let (new, behind, fine) = c.queue_kept in
        ap all_marked behind ∙ all_marked-append s.queue new h.marked fine;
  }

  taken_out :
      (capacity : ℕ) (s s' : SignalSender State) (e : SignalEnvelope)
      → recv sem s ≡ some (e, s')
      → HasHeadroom capacity s
      → HasHeadroom capacity
          (give_back sem (is_some e.mailbox_permit) e.data_queue_permit e.monitor_permit s')
  unfolding recv give_back carried all_marked
  taken_out capacity s s' e r h = go s.queue refl (Bool-cases s.kill_requested)
    where
      go :
          (queue : List SignalEnvelope)
          → s.queue ≡ queue
          → (s.kill_requested ≡ true) ⊎ (s.kill_requested ≡ false)
          → HasHeadroom capacity
              (give_back sem (is_some e.mailbox_permit) e.data_queue_permit e.monitor_permit s')
      go queue q (inl killed) =
          let now : s' ≡ record s { kill_requested = false } = ground arith in
          let plain : e.data_queue_permit ≡ false = ground arith in
          rw (now, plain)
            (record {
              data_permits = h.data_permits;
              within = h.within;
              same_capacity = h.same_capacity;
              marked = h.marked;
            })
      go [] q (inr alive) = ground arith
      go (x ∷ xs) q (inr alive) =
          let own : e ≡ x = ground arith in
          let now : s' ≡ record s { queue = xs } = ground arith in
          rw (now, own)
            (record {
              data_permits =
                  ground (arith, h.data_permits, q, sem.available-release s.data_admission);
              within = ground (arith, h.within, q);
              same_capacity = h.same_capacity;
              marked = ground (arith, h.marked, q);
            })

  step-HasHeadroom :
      (capacity : ℕ) (call : Call) (w : World State)
      → HasHeadroom capacity w.sender
      → HasHeadroom capacity (step call w).sender
  unfolding step set_sender close_with_reason
  step-HasHeadroom capacity (sends signal target) w h =
      sent-HasHeadroom capacity w.sender _ (send_inner-IsClean sem signal target w).1 h
  step-HasHeadroom capacity (closes reason) w h = record {
    data_permits = h.data_permits;
    within = h.within;
    same_capacity = h.same_capacity;
    marked = h.marked;
  }
  step-HasHeadroom capacity receives w h = elim (Option-cases (recv sem w.sender)) [
    | inl nothing ↦ rw (nothing, step) h
    | inr ((e, s), got) ↦
        rw (got, step)
          (rw
            (drop_notification_sender sem e.monitor_notification (
              set_sender
                (give_back sem (is_some e.mailbox_permit) e.data_queue_permit e.monitor_permit s)
                w))
            (taken_out capacity w.sender s e got h))
  ]

  run-HasHeadroom :
      (capacity : ℕ) (calls : List Call) (w : World State)
      → HasHeadroom capacity w.sender
      → HasHeadroom capacity (run calls w).sender
  unfolding run
  run-HasHeadroom capacity [] w h = h
  run-HasHeadroom capacity (call ∷ calls) w h =
      run-HasHeadroom capacity calls (step call w) (step-HasHeadroom capacity call w h)

  created :
      (capacity max_bytes max_resources : ℕ) (mailbox : MessageMailbox State)
      (s : SignalSender State)
      → signal_mailbox_with_limits sem capacity mailbox max_bytes max_resources ≡ some s
      → HasHeadroom capacity s
  unfolding signal_mailbox_with_limits carried all_marked
  created capacity max_bytes max_resources mailbox s h = record {
    data_permits = ground (arith, sem.available-new (max (capacity - 1) 1));
    within = ground arith;
    same_capacity = ground arith;
    marked = ground arith;
  }

  count_messages-marked :
      (es : List SignalEnvelope)
      → all_marked es ≡ true
      → count_messages es ≤ carried sem (holds_data sem) es
  unfolding all_marked count_messages carried
  count_messages-marked [] h = omega arith
  count_messages-marked (e ∷ es) h = ground (arith, h, count_messages-marked es (ground (arith, h)))

  -- After any sends, receives and closes on a new signal ingress of any capacity, its queue is
  -- within the capacity, and those of its signals that may become a message, counted by the signals
  -- themselves, are at most all its places but one, or the only one: messages alone never fill a
  -- queue of two places or more.
  pub run-queue :
      (capacity max_bytes max_resources : ℕ) (mailbox : MessageMailbox State) (calls : List Call)
      (w : World State)
      → signal_mailbox_with_limits sem capacity mailbox max_bytes max_resources ≡ some w.sender
      → (length (run calls w).sender.queue ≤ capacity)
        × (count_messages (run calls w).sender.queue ≤ max (capacity - 1) 1)
  run-queue capacity max_bytes max_resources mailbox calls w h =
      let r =
        run-HasHeadroom capacity calls w
          (created capacity max_bytes max_resources mailbox w.sender h) in
      (
        r.within,
        omega (arith, r.data_permits, count_messages-marked (run calls w).sender.queue r.marked),
      )
