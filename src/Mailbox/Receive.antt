-- ===== src/Mailbox/Receive.antt =====
-- A receive that waits and is woken by a push, against one that searches.
use lunatic.Prelude.{
  ℕ, zero, suc, ◌≤◌, ◌≡◌, refl, sym, ap, subst, ◌∙◌, inl, inr, List, [], ◌∷◌, ◌++◌, Option, none,
  some, Bool, true, false, arith, length, take, extract, min, insert_at, Bool-cases, length-append,
}
use lunatic.External.Semaphore.{Semaphore}
use lunatic.Message.{Message, Tag}
use lunatic.Mailbox.{
  MessageMailbox, InnerMessageMailbox, AdmittedMessage, MailboxPermit, Pushed, pushed, rejected,
  deliver, matches, push_with_permit, poll, pop, hand_out, restore_found,
}
use lunatic.Mailbox.Admission.{push_with_permit-rejected}
use lunatic.Mailbox.Order.{pending, push_with_permit-pushed, pop_lem}

module _ {ℓ} {A : Type ℓ} (p : A → Bool) where
  extract-append :
      (xs : List A) (y : A) → extract p xs ≡ none → p y ≡ false → extract p (xs ++ y ∷ []) ≡ none
  extract-append [] y h f = ground arith
  extract-append (x ∷ xs) y h f = ground (arith, extract-append xs y)

  extract-insert_at :
      (i : ℕ) (y : A) (xs : List A)
      → i ≤ length xs
      → extract p (take i xs) ≡ none
      → p y ≡ true
      → extract p (insert_at i y xs) ≡ some (y, xs)
  extract-insert_at zero y xs le h t = ground arith
  extract-insert_at (suc i) y [] le h t = absurd (omega arith)
  extract-insert_at (suc i) y (x ∷ xs) le h t = ground (arith, extract-insert_at i y xs)

module _ {ℓ} {A : Type ℓ} where
  take-append_le : (i : ℕ) (xs ys : List A) → i ≤ length xs → take i (xs ++ ys) ≡ take i xs
  take-append_le zero xs ys h = refl
  take-append_le (suc i) [] ys h = absurd (omega arith)
  take-append_le (suc i) (x ∷ xs) ys h = ap (◌∷◌ x) (take-append_le i xs ys (omega arith))

  take-length : (xs : List A) → take (length xs) xs ≡ xs
  take-length [] = refl
  take-length (x ∷ xs) = ap (◌∷◌ x) (take-length xs)

abbrev accepts : Option (List Tag) → AdmittedMessage → Bool
accepts tags m = matches tags m.message

-- A receive for `tags` is under way. Either nothing pending matches and it waits, or it was woken
-- with a message that matches, at a place `i` that no match stands before.
data IsReceiving (tags : Option (List Tag)) (inner : InnerMessageMailbox) : Type 0 where
  waiting :
      (w : ℕ)
      → inner.waker ≡ some w
      → inner.tags ≡ tags
      → inner.found ≡ none
      → extract (accepts tags) inner.messages ≡ none
      → IsReceiving tags inner
  woken :
      (i : ℕ) (m : AdmittedMessage)
      → inner.waker ≡ none
      → inner.found ≡ some (i, m)
      → i ≤ length inner.messages
      → extract (accepts tags) (take i inner.messages) ≡ none
      → accepts tags m ≡ true
      → IsReceiving tags inner

deliver-IsReceiving :
    (tags : Option (List Tag)) (m : AdmittedMessage) (inner : InnerMessageMailbox)
    → IsReceiving tags inner
    → IsReceiving tags (deliver m inner).0
unfolding deliver
deliver-IsReceiving tags m inner (waiting w e t f no_match) =
    elim (Bool-cases (matches inner.tags m.message)) [
      | inl hit ↦
          rw (e, deliver)
            (rw hit (
              woken (length inner.messages) m refl refl (omega arith)
                (rw (take-length inner.messages) no_match) (rw (← t) hit)))
      | inr miss ↦
          rw (e, deliver)
            (rw miss (
              waiting w e t f
                (extract-append (accepts tags) inner.messages m no_match (rw (← t) miss))))
    ]
deliver-IsReceiving tags m inner (woken i x e f le no_match hit) =
    rw (e, deliver)
      (woken i x e f (omega (arith, length-append inner.messages (m ∷ [])))
        (rw (take-append_le i inner.messages (m ∷ []) le) no_match) hit)

push-IsReceiving :
    {State : Type 0} (tags : Option (List Tag)) (mailbox : MessageMailbox State) (m : Message)
    (permit : MailboxPermit) (r : Pushed × MessageMailbox State)
    → push_with_permit mailbox m permit ≡ r
    → IsReceiving tags mailbox.inner
    → IsReceiving tags r.1.inner
push-IsReceiving tags mailbox m permit (pushed w, mailbox') h v =
    let (e, _, _) = push_with_permit-pushed mailbox mailbox' m permit w h in
    rw e (deliver-IsReceiving tags _ mailbox.inner v)
push-IsReceiving tags mailbox m permit (rejected x, mailbox') h v =
    rw (push_with_permit-rejected mailbox mailbox' m permit x h).1 v

-- Messages that come with permits, the rejected ones left out.
unfoldable pub push_all :
    {State : Type 0} → MessageMailbox State → List (Message × MailboxPermit) → MessageMailbox State
push_all mailbox [] = mailbox
push_all mailbox ((m, permit) ∷ ms) = push_all (push_with_permit mailbox m permit).1 ms

push_all-IsReceiving :
    {State : Type 0} (tags : Option (List Tag)) (mailbox : MessageMailbox State)
    (ms : List (Message × MailboxPermit))
    → IsReceiving tags mailbox.inner
    → IsReceiving tags (push_all mailbox ms).inner
unfolding push_all
push_all-IsReceiving tags mailbox [] v = v
push_all-IsReceiving tags mailbox ((m, permit) ∷ ms) v =
    push_all-IsReceiving tags (push_with_permit mailbox m permit).1 ms
      (push-IsReceiving tags mailbox m permit _ refl v)

module _ {State : Type 0} (sem : Semaphore State) where
  poll-eq-pop :
      (tags : Option (List Tag)) (waker : ℕ) (mailbox : MessageMailbox State)
      → IsReceiving tags mailbox.inner
      → poll sem waker mailbox ≡ pop sem tags waker mailbox
  unfolding poll pending restore_found
  poll-eq-pop tags waker mailbox (waiting w e t f no_match) =
      let same : pending mailbox.inner ≡ mailbox.messages = rw f refl in
      let found_none =
        pop_lem sem tags waker mailbox none (ap (extract (accepts tags)) same ∙ no_match) in
      ground (arith, found_none, same)
  poll-eq-pop tags waker mailbox (woken i m e f le no_match hit) =
      let place : min i (length mailbox.messages) ≡ i = omega arith in
      let same : pending mailbox.inner ≡ insert_at i m mailbox.messages = rw f (rw place refl) in
      let first = extract-insert_at (accepts tags) i m mailbox.messages le no_match hit in
      let found_it =
        pop_lem sem tags waker mailbox (some (m, mailbox.messages))
          (ap (extract (accepts tags)) same ∙ first) in
      ground (arith, found_it)

  pop-IsReceiving :
      (tags : Option (List Tag)) (waker : ℕ) (mailbox mailbox' : MessageMailbox State)
      → pop sem tags waker mailbox ≡ (none, mailbox')
      → IsReceiving tags mailbox'.inner
  unfolding hand_out
  pop-IsReceiving tags waker mailbox mailbox' h =
      split (extract (accepts tags) (pending mailbox.inner)) refl
    where
      split :
          (r : Option (AdmittedMessage × List AdmittedMessage))
          → extract (accepts tags) (pending mailbox.inner) ≡ r
          → IsReceiving tags mailbox'.inner
      split none e =
          let waits = sym (pop_lem sem tags waker mailbox none e) ∙ h in
          let inner = ap (λ (x : Option Message × MessageMailbox State). x.1.inner) waits in
          subst (IsReceiving tags) inner (waiting waker refl refl refl e)
      split (some (m, rest)) e = cc (pop_lem sem tags waker mailbox (some (m, rest)) e)

  -- A `pop` that found nothing and waits, whatever messages are pushed meanwhile, ends as a `pop`
  -- that searches the queue when it is polled: with the same message, the first that matches, and
  -- with the same mailbox.
  pub poll-pop :
      (tags : Option (List Tag)) (waker later : ℕ) (mailbox mailbox' : MessageMailbox State)
      (ms : List (Message × MailboxPermit))
      → pop sem tags waker mailbox ≡ (none, mailbox')
      → poll sem later (push_all mailbox' ms) ≡ pop sem tags later (push_all mailbox' ms)
  poll-pop tags waker later mailbox mailbox' ms h =
      poll-eq-pop tags later _
        (push_all-IsReceiving tags mailbox' ms (pop-IsReceiving tags waker mailbox mailbox' h))
