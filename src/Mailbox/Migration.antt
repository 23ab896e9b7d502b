-- ===== src/Mailbox/Migration.antt =====
-- A hot reload takes a snapshot of the mailbox, and restores it when messages may have come since.
use lunatic.Prelude.{◌≡◌, ◌≢◌, refl, sym, ◌∙◌, List, [], ◌∷◌, ◌++◌, none, some, inr, arith}
use lunatic.Message.{Message}
use lunatic.Mailbox.{
  MessageMailbox, MessageMailboxSnapshot, MailboxPermit, snapshot, restore, push_with_permit,
  restore_found,
}
use lunatic.Mailbox.Order.{pending, IsWellFormed}
use lunatic.Mailbox.Receive.{push_all}

pub restored :
    {State : Type 0} → MessageMailboxSnapshot → MessageMailbox State → MessageMailbox State
restored s mailbox = record mailbox {
  inner = record inner {
    found = none;
    messages = s.messages ++ restore_found inner.found inner.messages;
  };
}
  where
    open mailbox use {inner}

-- `restore` puts what was snapshotted before what has come since.
pub pending-restore :
    {State : Type 0} (s : MessageMailboxSnapshot) (mailbox mailbox' : MessageMailbox State)
    → restore s mailbox ≡ some mailbox'
    → (pending mailbox'.inner ≡ s.messages ++ pending mailbox.inner)
      × IsWellFormed mailbox'.inner
      × (mailbox'.admission ≡ mailbox.admission)
unfolding restore pending restored
pending-restore s mailbox mailbox' h =
    let e : mailbox' ≡ restored s mailbox = ground arith in
    rw e (refl, record { exclusive = inr refl; in_range = tt }, refl)

module _ {State : Type 0} where
  admission_id-push :
      (mailbox : MessageMailbox State) (m : Message) (permit : MailboxPermit)
      → (push_with_permit mailbox m permit).1.admission_id ≡ mailbox.admission_id
  unfolding push_with_permit
  admission_id-push mailbox m permit = ground arith

  admission_id-push_all :
      (mailbox : MessageMailbox State) (ms : List (Message × MailboxPermit))
      → (push_all mailbox ms).admission_id ≡ mailbox.admission_id
  unfolding push_all
  admission_id-push_all mailbox [] = refl
  admission_id-push_all mailbox ((m, permit) ∷ ms) =
      admission_id-push_all (push_with_permit mailbox m permit).1 ms
      ∙ admission_id-push mailbox m permit

  restore_own :
      (s : MessageMailboxSnapshot) (mailbox : MessageMailbox State)
      → s.admission_id ≡ mailbox.admission_id
      → (mailbox' : MessageMailbox State) × (restore s mailbox ≡ some mailbox')
  unfolding restore restored
  restore_own s mailbox own = (restored s mailbox, ground arith)

  restore_foreign :
      (s : MessageMailboxSnapshot) (mailbox : MessageMailbox State)
      → mailbox.admission_id ≢ s.admission_id
      → restore s mailbox ≡ none
  unfolding restore restored
  restore_foreign s mailbox foreign = ground arith

  -- A snapshot leaves the mailbox empty. Restored into it, whatever has been pushed in between, it
  -- puts all that was pending, in its order, before what has come since. Into a mailbox with
  -- another semaphore it is not restored.
  pub restore-snapshot :
      (mailbox other : MessageMailbox State) (ms : List (Message × MailboxPermit))
      → other.admission_id ≢ mailbox.admission_id
      → let (snap, emptied) = snapshot mailbox in
        let later = push_all emptied ms in
        (pending emptied.inner ≡ [])
        × (restore snap other ≡ none)
        × (mailbox' : MessageMailbox State) × (restore snap later ≡ some mailbox')
        × (pending mailbox'.inner ≡ pending mailbox.inner ++ pending later.inner)
  unfolding snapshot pending
  restore-snapshot mailbox other ms foreign =
      let (snap, emptied) = snapshot mailbox in
      let later = push_all emptied ms in
      let (mailbox', done) = restore_own snap later (sym (admission_id-push_all emptied ms)) in
      (
        refl,
        restore_foreign snap other foreign,
        mailbox',
        done,
        (pending-restore snap later mailbox' done).0,
      )
