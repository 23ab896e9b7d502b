-- ===== src/Mailbox.antt =====
-- crates/lunatic-process/src/mailbox.rs: the bounded mailbox of a process. A mailbox and its clones
-- share one state, which is the record `Mailbox`; a call that takes the lock is one step on it.
-- `admission_id` is the identity of the semaphore (`Arc::ptr_eq`), `admission` its state. A waker
-- is the number of the task that it wakes.
pub mod Admission
pub mod Order
pub mod Push
pub mod Traffic
pub mod Receive
pub mod Migration
mod Examples
use lunatic.Prelude.{
  ℕ, suc, ◌+◌, ◌-◌, ◌^◌, List, [], ◌∷◌, ◌++◌, Option, none, some, Bool, true, false, ◌&&◌, ◌||◌,
  ltb, leb, ◌==◌, if◌then◌else◌, length, contains, insert_at, extract, is_some, min,
}
use lunatic.External.Semaphore.{Semaphore}
use lunatic.Message.{Message, DataMessage, Tag, data_message, link_died, process_died, tag}

abbrev pub default_message_mailbox_capacity : ℕ
default_message_mailbox_capacity = 1024

abbrev pub default_max_message_size : ℕ
default_max_message_size = 1048576

abbrev pub default_max_message_resources : ℕ
default_max_message_resources = 64

-- A permit is the identity of the semaphore that it came from.
pub record MailboxPermit : Type 0 where
  pub semaphore : ℕ

pub record AdmittedMessage : Type 0 where
  pub message : Message
  pub permit : MailboxPermit

pub record InnerMessageMailbox : Type 0 where
  pub waker : Option ℕ
  pub tags : Option (List Tag)
  pub found : Option (ℕ × AdmittedMessage)
  pub messages : List AdmittedMessage

pub record MessageMailbox (State : Type 0) : Type 0 where
  pub inner : InnerMessageMailbox
  pub open inner use *
  pub admission_id : ℕ
  pub admission : State
  pub capacity : ℕ
  pub max_message_bytes : ℕ
  pub max_message_resources : ℕ

pub data MessageLimitViolation : Type 0 where
  bytes : ℕ → ℕ → MessageLimitViolation
  resources : ℕ → ℕ → MessageLimitViolation

pub data MailboxPushError : Type 0 where
  message_too_large : Message → Option MailboxPermit → ℕ → ℕ → MailboxPushError
  too_many_message_resources : Message → Option MailboxPermit → ℕ → ℕ → MailboxPushError
  full : Message → MailboxPushError
  foreign_permit : Message → MailboxPermit → MailboxPushError

pub data MailboxPushErrorKind : Type 0 where
  too_large too_many_resources is_full is_foreign : MailboxPushErrorKind

unfoldable pub kind : MailboxPushError → MailboxPushErrorKind
kind (message_too_large m p actual most) = too_large
kind (too_many_message_resources m p actual most) = too_many_resources
kind (full m) = is_full
kind (foreign_permit m p) = is_foreign

unfoldable pub into_message : MailboxPushError → Message
into_message (message_too_large m p actual most) = m
into_message (too_many_message_resources m p actual most) = m
into_message (full m) = m
into_message (foreign_permit m p) = m

unfoldable pub into_parts : MailboxPushError → Message × Option MailboxPermit
into_parts (message_too_large m p actual most) = (m, p)
into_parts (too_many_message_resources m p actual most) = (m, p)
into_parts (full m) = (m, none)
into_parts (foreign_permit m p) = (m, some p)

-- A push that succeeds may wake a task.
pub data Pushed : Type 0 where
  pushed : Option ℕ → Pushed
  rejected : MailboxPushError → Pushed

pub record MessageMailboxSnapshot : Type 0 where
  pub admission_id : ℕ
  pub messages : List AdmittedMessage

pub empty_inner : InnerMessageMailbox
empty_inner = record { waker = none; tags = none; found = none; messages = [] }

-- `u64::try_from(n).unwrap_or(u64::MAX)`.
abbrev pub u64_or_max : ℕ → ℕ
u64_or_max n = if ltb n (2 ^ 64) then n else 2 ^ 64 - 1

abbrev data_violation : ℕ → ℕ → DataMessage → Option MessageLimitViolation
data_violation most_bytes most_resources m =
    let actual_bytes = u64_or_max m.buffer_capacity in
    let actual_resources = u64_or_max m.resources_capacity in
    if ltb most_bytes actual_bytes
    then some (bytes actual_bytes most_bytes)
    else if ltb most_resources actual_resources
    then some (resources actual_resources most_resources)
    else none

-- Only data messages have limits.
pub limit_violation :
    {State : Type 0} → MessageMailbox State → Message → Option MessageLimitViolation
limit_violation mailbox (data_message m) =
    data_violation mailbox.max_message_bytes mailbox.max_message_resources m
limit_violation mailbox (link_died t) = none
limit_violation mailbox (process_died id reason) = none

pub too_big : MessageLimitViolation → Message → Option MailboxPermit → MailboxPushError
too_big (bytes actual most) m p = message_too_large m p actual most
too_big (resources actual most) m p = too_many_message_resources m p actual most

-- The message that a cancelled receive left goes back to its place.
pub restore_found : Option (ℕ × AdmittedMessage) → List AdmittedMessage → List AdmittedMessage
restore_found none ms = ms
restore_found (some (index, m)) ms = insert_at (min index (length ms)) m ms

-- Whether a receive that waits for `tags` takes the message.
unfoldable pub matches : Option (List Tag) → Message → Bool
matches none m = true
matches (some ts) m = elim (tag m) [ none ↦ false | some t ↦ contains t ts ]

pub len : {State : Type 0} → MessageMailbox State → ℕ
len mailbox = length mailbox.messages + (if is_some mailbox.found then 1 else 0)

pub is_empty : {State : Type 0} → MessageMailbox State → Bool
is_empty mailbox =
    (elim mailbox.messages [ [] ↦ true | m ∷ ms ↦ false ])
    && (if is_some mailbox.found then false else true)

belongs_to : {State : Type 0} → MailboxPermit → MessageMailbox State → Bool
belongs_to permit mailbox = permit.semaphore == mailbox.admission_id

-- The message goes to the receive that waits for it, or to the end of the queue.
pub deliver : AdmittedMessage → InnerMessageMailbox → InnerMessageMailbox × Option ℕ
deliver m inner = elim inner.waker [
  | none ↦ (record inner { messages = inner.messages ++ m ∷ [] }, none)
  | some w ↦
      if matches inner.tags m.message
      then (record inner { waker = none; found = some (length inner.messages, m) }, some w)
      else (record inner { messages = inner.messages ++ m ∷ [] }, none)
]

module _ {State : Type 0} (sem : Semaphore State) where
  pub with_limits : ℕ → ℕ → ℕ → ℕ → MessageMailbox State
  unfolding empty_inner
  with_limits id capacity max_message_bytes max_message_resources = record {
    inner = empty_inner;
    admission_id = id;
    admission = sem.new capacity;
    capacity = capacity;
    max_message_bytes = max_message_bytes;
    max_message_resources = max_message_resources;
  }

  pub new : ℕ → ℕ → MessageMailbox State
  unfolding with_limits
  new id capacity = with_limits id capacity default_max_message_size default_max_message_resources

  pub available_capacity : MessageMailbox State → ℕ
  available_capacity mailbox = sem.available_permits mailbox.admission

  -- The drop of a permit of this mailbox.
  unfoldable pub drop_permit : MessageMailbox State → MessageMailbox State
  drop_permit mailbox = record mailbox { admission = sem.release mailbox.admission }

  unfoldable pub try_reserve : MessageMailbox State → Option (MailboxPermit × MessageMailbox State)
  try_reserve mailbox = elim (sem.try_acquire_owned mailbox.admission) [
    | none ↦ none
    | some s ↦ some (record { semaphore = mailbox.admission_id }, record mailbox { admission = s })
  ]

pub push_with_permit :
    {State : Type 0}
    → MessageMailbox State
    → Message
    → MailboxPermit
    → Pushed × MessageMailbox State
unfolding belongs_to too_big deliver
push_with_permit mailbox m permit =
    let admitted : AdmittedMessage = record { message = m; permit = permit } in
    let delivered = deliver admitted mailbox.inner in
    let result : Pushed × MessageMailbox _ = elim (limit_violation mailbox m) [
      | some v ↦ (rejected (too_big v m (some permit)), mailbox)
      | none ↦ (pushed delivered.1, record mailbox { inner = delivered.0 })
    ] in
    if belongs_to permit mailbox then result else (rejected (foreign_permit m permit), mailbox)

module _ {State : Type 0} (sem : Semaphore State) where
  pub push : MessageMailbox State → Message → Pushed × MessageMailbox State
  unfolding push_with_permit try_reserve
  push mailbox m = elim (limit_violation mailbox m) [
    | some v ↦ (rejected (too_big v m none), mailbox)
    | none ↦ elim (try_reserve sem mailbox) [
      | none ↦ (rejected (full m), mailbox)
      | some (permit, mailbox') ↦ push_with_permit mailbox' m permit
    ]
  ]

  -- `into_message` drops the permit of the message that is handed out.
  pub hand_out : AdmittedMessage → MessageMailbox State → Option Message × MessageMailbox State
  unfolding drop_permit
  hand_out m mailbox = (some m.message, drop_permit sem mailbox)

  -- `Future::poll`; `none` is `Pending`.
  pub poll : ℕ → MessageMailbox State → Option Message × MessageMailbox State
  unfolding hand_out
  poll waker mailbox = elim mailbox.found [
    | some (index, m) ↦ hand_out m (record mailbox { inner = record inner { found = none } })
    | none ↦ (none, record mailbox { inner = record inner { waker = some waker } })
  ]
    where
      open mailbox use {inner}

  -- The part of `pop` under its lock, and the first poll. `position` and `pop_front` both take the
  -- first message that matches: without tags, every message does.
  pub pop : Option (List Tag) → ℕ → MessageMailbox State → Option Message × MessageMailbox State
  unfolding hand_out poll restore_found
  pop tags waker mailbox =
      let queue = restore_found mailbox.found mailbox.messages in
      elim (extract (λ m. matches tags m.message) queue) [
        | some (m, rest) ↦
            hand_out m (record mailbox { inner = record inner { found = none; messages = rest } })
        | none ↦ poll waker (record mailbox {
          inner = record inner { tags = tags; found = none; messages = queue };
        })
      ]
    where
      open mailbox use {inner}

  pub pop_skip_search :
      Option (List Tag) → ℕ → MessageMailbox State → Option Message × MessageMailbox State
  unfolding poll restore_found
  pop_skip_search tags waker mailbox = poll waker (record mailbox {
    inner = record inner {
      tags = tags;
      found = none;
      messages = restore_found inner.found inner.messages;
    };
  })
    where
      open mailbox use {inner}

pub snapshot :
    {State : Type 0} → MessageMailbox State → MessageMailboxSnapshot × MessageMailbox State
unfolding restore_found
snapshot mailbox = (
  record {
    admission_id = mailbox.admission_id;
    messages = restore_found inner.found inner.messages;
  },
  record mailbox { inner = record inner { found = none; messages = [] } },
)
  where
    open mailbox use {inner}

-- `none` gives the snapshot back to the caller.
pub restore :
    {State : Type 0} → MessageMailboxSnapshot → MessageMailbox State → Option (MessageMailbox State)
unfolding restore_found
restore snap mailbox =
    let newer = restore_found inner.found inner.messages in
    if snap.admission_id == mailbox.admission_id
    then some (record mailbox {
      inner = record inner { found = none; messages = snap.messages ++ newer };
    })
    else none
  where
    open mailbox use {inner}
