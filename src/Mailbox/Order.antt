-- ===== src/Mailbox/Order.antt =====
-- What a mailbox holds, in the order of arrival, and how each call changes that.
use lunatic.Prelude.{
  ℕ, ◌+◌, ◌≤◌, ◌≡◌, refl, ◌⊎◌, inl, inr, List, [], ◌∷◌, ◌++◌, Option, none, some, true, Splits,
  extract-Splits, insert_at-Splits, arith, length, extract, min, length-append, length-insert_at,
  insert_at-append, insert_at-length, if◌then◌else◌, is_some,
}
use lunatic.External.Semaphore.{Semaphore}
use lunatic.Message.{Message, Tag}
use lunatic.Mailbox.{
  MessageMailbox, InnerMessageMailbox, AdmittedMessage, MailboxPermit, pushed, restore_found,
  deliver, hand_out, matches, push_with_permit, poll, pop, pop_skip_search, limit_violation,
}

-- The pending messages, oldest first: a message that a woken receive has not taken stands at its
-- place of arrival.
unfoldable pub pending : InnerMessageMailbox → List AdmittedMessage
unfolding restore_found
pending inner = restore_found inner.found inner.messages

abbrev InRange : Option (ℕ × AdmittedMessage) → ℕ → Type 0
InRange none n = Unit {0}
InRange (some (i, m)) n = i ≤ n

-- A receive is not both waiting and woken, and a woken one has its message at a place in the queue.
pub record IsWellFormed (inner : InnerMessageMailbox) : Type 0 where
  pub exclusive : (inner.waker ≡ none) ⊎ (inner.found ≡ none)
  pub in_range : InRange inner.found (length inner.messages)

pub restore_found-append :
    (f : Option (ℕ × AdmittedMessage)) (ms ns : List AdmittedMessage)
    → InRange f (length ms)
    → restore_found f (ms ++ ns) ≡ restore_found f ms ++ ns
unfolding restore_found
restore_found-append none ms ns h = refl
restore_found-append (some (i, m)) ms ns h =
    let e : min i (length (ms ++ ns)) ≡ i = omega (arith, length-append ms ns) in
    let e' : min i (length ms) ≡ i = omega arith in rw e (rw e' (insert_at-append i m ms ns h))

pub length-restore_found :
    (f : Option (ℕ × AdmittedMessage)) (ms : List AdmittedMessage)
    → length (restore_found f ms) ≡ length ms + (if is_some f then 1 else 0)
unfolding restore_found
length-restore_found none ms = omega arith
length-restore_found (some (i, m)) ms = omega (arith, length-insert_at (min i (length ms)) m ms)

restore_found-last :
    (m : AdmittedMessage) (ms : List AdmittedMessage)
    → restore_found (some (length ms, m)) ms ≡ ms ++ m ∷ []
unfolding restore_found
restore_found-last m ms =
    let e : min (length ms) (length ms) ≡ length ms = omega arith in rw e (insert_at-length m ms)

deliver_cases :
    (m : AdmittedMessage) (inner : InnerMessageMailbox)
    → ((deliver m inner).0 ≡ record inner { messages = inner.messages ++ m ∷ [] })
      ⊎ (((deliver m inner).0
            ≡ record inner { waker = none; found = some (length inner.messages, m) })
          × ((w : ℕ) × (inner.waker ≡ some w))
          × (matches inner.tags m.message ≡ true))
unfolding deliver
deliver_cases m inner = ground arith

pub pending-deliver :
    (m : AdmittedMessage) (inner : InnerMessageMailbox)
    → IsWellFormed inner
    → pending (deliver m inner).0 ≡ pending inner ++ m ∷ []
unfolding pending
pending-deliver m inner v = elim (deliver_cases m inner) [
  | inl e ↦ rw e (restore_found-append inner.found inner.messages (m ∷ []) v.in_range)
  | inr (e, (w, waits), t) ↦
      let idle : inner.found ≡ none = ground arith in
      rw e (rw idle (restore_found-last m inner.messages))
]

InRange-mono : (f : Option (ℕ × AdmittedMessage)) {n k : ℕ} → InRange f n → n ≤ k → InRange f k
InRange-mono none h le = tt
InRange-mono (some (i, m)) h le = omega arith

pub deliver-IsWellFormed :
    (m : AdmittedMessage) (inner : InnerMessageMailbox)
    → IsWellFormed inner
    → IsWellFormed (deliver m inner).0
deliver-IsWellFormed m inner v = elim (deliver_cases m inner) [
  | inl e ↦ rw e (record {
    exclusive = v.exclusive;
    in_range =
        InRange-mono inner.found v.in_range (omega (arith, length-append inner.messages (m ∷ [])));
  })
  | inr (e, (w, waits), t) ↦ rw e (record { exclusive = inl refl; in_range = omega arith })
]

-- What a push that succeeds has checked, and what it changes.
pub push_with_permit-pushed :
    {State : Type 0} (mailbox mailbox' : MessageMailbox State) (m : Message)
    (permit : MailboxPermit) (woken : Option ℕ)
    → push_with_permit mailbox m permit ≡ (pushed woken, mailbox')
    → (mailbox' ≡ record mailbox {
      inner = (deliver (record { message = m; permit = permit }) mailbox.inner).0;
    })
      × (limit_violation mailbox m ≡ none)
      × (permit.semaphore ≡ mailbox.admission_id)
unfolding push_with_permit
push_with_permit-pushed mailbox mailbox' m permit woken h = ground arith

-- A push that succeeds puts the message behind all that are pending.
pub pending-push_with_permit :
    {State : Type 0} (mailbox mailbox' : MessageMailbox State) (m : Message)
    (permit : MailboxPermit) (woken : Option ℕ)
    → IsWellFormed mailbox.inner
    → push_with_permit mailbox m permit ≡ (pushed woken, mailbox')
    → (pending mailbox'.inner
        ≡ pending mailbox.inner ++ record { message = m; permit = permit } ∷ [])
      × IsWellFormed mailbox'.inner
pending-push_with_permit mailbox mailbox' m permit woken v h =
    let (e, _, _) = push_with_permit-pushed mailbox mailbox' m permit woken h in
    rw e (pending-deliver _ mailbox.inner v, deliver-IsWellFormed _ mailbox.inner v)

-- What a receive may do: take one pending message out, or leave all of them.
abbrev pub Receives : List AdmittedMessage → List AdmittedMessage → Option Message → Type 0
Receives before after r =
    ((r ≡ none) × (after ≡ before))
    ⊎ ((m : AdmittedMessage) × (r ≡ some m.message) × Splits before m after)

-- A call of a receive on `mailbox`, with its result.
abbrev pub Receipt :
    {State : Type 0} → MessageMailbox State → Option Message × MessageMailbox State → Type 0
Receipt mailbox (r, mailbox') =
    Receives (pending mailbox.inner) (pending mailbox'.inner) r × IsWellFormed mailbox'.inner

module _ {State : Type 0} (sem : Semaphore State) where
  poll_cases :
      (waker : ℕ) (found : Option (ℕ × AdmittedMessage)) (mailbox : MessageMailbox State)
      → mailbox.found ≡ found
      → Receipt mailbox (poll sem waker mailbox)
  unfolding poll pending
  poll_cases waker none mailbox e =
      rw (e, poll) (inl (refl, rw e refl), record { exclusive = inr e; in_range = rw e tt })
  poll_cases waker (some (i, m)) mailbox e =
      rw (e, poll)
        (
          inr (m, refl, insert_at-Splits _ m mailbox.messages),
          record { exclusive = inr refl; in_range = tt },
        )

  pub poll-Receipt :
      (waker : ℕ) (mailbox : MessageMailbox State) → Receipt mailbox (poll sem waker mailbox)
  poll-Receipt waker mailbox = poll_cases waker mailbox.found mailbox refl

  -- A receive that waits first puts a message that it was woken with back in its place.
  pub pop_skip_search-Receipt :
      (tags : Option (List Tag)) (waker : ℕ) (mailbox : MessageMailbox State)
      → Receipt mailbox (pop_skip_search sem tags waker mailbox)
  unfolding pop_skip_search pending poll
  pop_skip_search-Receipt tags waker mailbox =
      (inl (refl, refl), record { exclusive = inr refl; in_range = tt })

  -- `pop` searches all that is pending.
  pub pop_lem :
      (tags : Option (List Tag)) (waker : ℕ) (mailbox : MessageMailbox State)
      (r : Option (AdmittedMessage × List AdmittedMessage))
      → extract (λ m. matches tags m.message) (pending mailbox.inner) ≡ r
      → pop sem tags waker mailbox ≡ elim r [
        | none ↦ (
          none,
          record mailbox {
            inner = record {
              waker = some waker;
              tags = tags;
              found = none;
              messages = pending mailbox.inner;
            };
          },
        )
        | some (m, rest) ↦ hand_out sem m (record mailbox {
          inner = record {
            waker = mailbox.waker;
            tags = mailbox.tags;
            found = none;
            messages = rest;
          };
        })
      ]
  unfolding pop poll pending
  pop_lem tags waker mailbox none e = rw (e, pop)
  pop_lem tags waker mailbox (some (m, rest)) e = rw (e, pop)

  pop_cases :
      (tags : Option (List Tag)) (waker : ℕ) (mailbox : MessageMailbox State)
      (r : Option (AdmittedMessage × List AdmittedMessage))
      → extract (λ m. matches tags m.message) (pending mailbox.inner) ≡ r
      → Receipt mailbox (pop sem tags waker mailbox)
  unfolding hand_out pending
  pop_cases tags waker mailbox none e =
      rw (pop_lem tags waker mailbox none e)
        (inl (refl, refl), record { exclusive = inr refl; in_range = tt })
  pop_cases tags waker mailbox (some (m, rest)) e =
      rw (pop_lem tags waker mailbox (some (m, rest)) e) (
        inr (m, refl, (extract-Splits _ (pending mailbox.inner) m rest e).0),
        record { exclusive = inr refl; in_range = tt },
      )

  -- A `pop` hands out a message that was pending and leaves the rest in their order, or it hands
  -- out none and leaves all that is pending; the mailbox is well-formed after.
  pub pop-Receipt :
      (tags : Option (List Tag)) (waker : ℕ) (mailbox : MessageMailbox State)
      → Receipt mailbox (pop sem tags waker mailbox)
  pop-Receipt tags waker mailbox = pop_cases tags waker mailbox _ refl
