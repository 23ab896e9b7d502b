-- ===== src/Signals/Kill.antt =====
-- The kill latch of the signal ingress.
use lunatic.Prelude.{ℕ, ◌≡◌, refl, Option, none, some, false}
use lunatic.External.Semaphore.{Semaphore}
use lunatic.Signals.{kill, SignalEnvelope, SignalSender, World, set_sender, is_link, is_kill}
use lunatic.Signals.Sender.{send_inner, request_kill, recv, terminal}

module _ {State : Type 0} (sem : Semaphore State) where
  -- What the receiver finds after a kill.
  pub record Kills (w : World State) (target : Option ℕ) : Type 0 where
    pub world : World State
    pub sent : send_inner sem kill target w ≡ (none, world)
    pub envelope : SignalEnvelope
    pub sender : SignalSender State
    pub received : recv sem world.sender ≡ some (envelope, sender)
    pub is_kill_signal : envelope.signal ≡ kill
    pub queue_waits : sender.queue ≡ w.sender.queue
    pub taken_once : sender.kill_requested ≡ false

  -- A kill of a process that has published no reason and whose receiver is open always succeeds,
  -- however full its queue, its mailbox and its permits are. It is what the receiver takes next,
  -- once, before everything in the queue, which stays.
  pub recv-send_kill :
      (w : World State) (target : Option ℕ)
      → w.sender.is_closed ≡ false
      → w.sender.death_reason ≡ none
      → Kills w target
  unfolding send_inner set_sender request_kill recv terminal is_link is_kill
  recv-send_kill w none live running = record {
    world = set_sender (request_kill sem w.sender) w;
    sent = rw (live, send_inner) refl;
    envelope = _;
    sender = _;
    received = refl;
    is_kill_signal = refl;
    queue_waits = refl;
    taken_once = refl;
  }
  recv-send_kill w (some id) live running = record {
    world = set_sender (request_kill sem w.sender) w;
    sent = simp (live, running, send_inner, terminal) refl;
    envelope = _;
    sender = _;
    received = refl;
    is_kill_signal = refl;
    queue_waits = refl;
    taken_once = refl;
  }
