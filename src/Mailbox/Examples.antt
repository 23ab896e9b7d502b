-- ===== src/Mailbox/Examples.antt =====
-- The mailbox theorems at concrete mailboxes, and runs that the code's own tests also make.
use lunatic.Prelude.{ℕ, ◌+◌, ◌≤◌, ◌≡◌, refl, List, [], ◌∷◌, none, some, inl, arith, contains}
use lunatic.External.Semaphore.{counting}
use lunatic.Message.{Message, link_died, tag}
use lunatic.Mailbox.{
  MessageMailbox, AdmittedMessage, MailboxPermit, limit_violation, matches, len, rejected, full,
  with_limits, push, pop, poll, snapshot, restore, push_with_permit,
}
use lunatic.Mailbox.Order.{pending, IsWellFormed, Receipt, pop-Receipt, pending-push_with_permit}
use lunatic.Mailbox.Push.{PushOutcome, push-PushOutcome}
use lunatic.Mailbox.Traffic.{
  Call, pushes, pops, takes_snapshot, restores, reserves, pushes_staged, snapshotted, run, start,
  run-slots,
}
use lunatic.Mailbox.Receive.{push_all, poll-pop}
use lunatic.Mailbox.Migration.{restore-snapshot}

abbrev two_slots : MessageMailbox ℕ
two_slots = record {
  inner = record { waker = none; tags = none; found = none; messages = [] };
  admission_id = 7;
  admission = 2;
  capacity = 2;
  max_message_bytes = 100;
  max_message_resources = 4;
}

two_slots_new : with_limits counting 7 2 100 4 ≡ two_slots
unfolding with_limits
two_slots_new = refl

abbrev own : MailboxPermit
own = record { semaphore = 7 }

abbrev admitted_tag : ℕ → AdmittedMessage
admitted_tag t = record { message = link_died (some t); permit = own }

-- Two messages pending: the second one for a receive that was woken and then cancelled.
abbrev filled : MessageMailbox ℕ
filled = record two_slots {
  inner = record {
    waker = none;
    tags = none;
    found = some (0, admitted_tag 1);
    messages = admitted_tag 2 ∷ [];
  };
  admission = 0;
}

filled-IsWellFormed : IsWellFormed filled.inner
filled-IsWellFormed = record { exclusive = inl refl; in_range = omega arith }

-- `selective_receive_tag_signal_message`: the second message is taken first.
pop_second : (pop counting (some (2 ∷ [])) 0 filled).0 ≡ some (link_died (some 2))
unfolding pop tag contains matches
pop_second = refl

-- The oldest message is the one whose receive was cancelled.
pop_oldest : (pop counting none 0 filled).0 ≡ some (link_died (some 1))
unfolding pop matches
pop_oldest = refl

push_full : (push counting filled (link_died none)).0 ≡ rejected (full (link_died none))
unfolding push limit_violation
push_full = refl

push_example : PushOutcome counting filled (link_died none) (push counting filled (link_died none))
push_example = push-PushOutcome counting filled (link_died none) filled-IsWellFormed

pending-push_with_permit_example :
    pending (push_with_permit two_slots (link_died (some 5)) own).1.inner ≡ admitted_tag 5 ∷ []
unfolding push_with_permit limit_violation pending
pending-push_with_permit_example =
    (pending-push_with_permit two_slots _ (link_died (some 5)) own none
      (record { exclusive = inl refl; in_range = tt }) refl).0

pop-Receipt_example : Receipt filled (pop counting (some (2 ∷ [])) 0 filled)
pop-Receipt_example = pop-Receipt counting (some (2 ∷ [])) 0 filled

abbrev calls : List Call
calls =
    pushes (link_died (some 1))
    ∷ reserves
    ∷ pushes (link_died (some 3))
    ∷ takes_snapshot
    ∷ pushes_staged (link_died (some 2))
    ∷ restores
    ∷ pops (some (2 ∷ [])) 0
    ∷ []

run-slots_example :
    let w = run counting (start counting 7 2 100 4) calls in
    len w.mailbox + snapshotted w.snapshots ≤ 2
run-slots_example = (run-slots counting 7 2 100 4 calls).1

abbrev arrivals : List (Message × MailboxPermit)
arrivals = (link_died (some 1), own) ∷ (link_died (some 2), own) ∷ []

abbrev waiting_for_two : MessageMailbox ℕ
waiting_for_two = record two_slots {
  inner = record { waker = some 0; tags = some (2 ∷ []); found = none; messages = [] };
}

poll-pop_example :
    poll counting 1 (push_all waiting_for_two arrivals)
    ≡ pop counting (some (2 ∷ [])) 1 (push_all waiting_for_two arrivals)
unfolding pop poll
poll-pop_example = poll-pop counting (some (2 ∷ [])) 0 1 two_slots waiting_for_two arrivals refl

restore-snapshot_example :
    restore (snapshot filled).0 (record two_slots { admission_id = 8 }) ≡ none
restore-snapshot_example =
    (restore-snapshot filled (record two_slots { admission_id = 8 }) arrivals (omega arith)).1
