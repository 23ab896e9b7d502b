-- ===== src/Lib.antt =====
-- Verification of the process core of the Lunatic runtime: how processes are admitted and supervised,
-- how signals and messages reach them, and how their modules are versioned and reloaded.
--
-- The parts, and the code they are about:
-- - Message (crates/lunatic-process/src/message.rs): the kinds of messages; a data message as a
--   buffer with a read pointer and slots for resources. Functions have the names of the methods.
-- - Mailbox (crates/lunatic-process/src/mailbox.rs): admission by permits, `push`,
--   `push_with_permit`, the selective receive `pop` with its poll and wake-up, `snapshot` and
--   `restore`. A mailbox holds messages and asks each for its tag.
-- - Signals (crates/lunatic-process/src/state.rs, and `Signal` of crates/lunatic-process/src/lib.rs):
--   `SignalSender::send_inner` with every reservation it makes (Sender, Reservations), the kill
--   latch, monitors of processes that are gone, `recv`. A sender reserves slots of the Mailbox of
--   its process, and of an observer's.
-- - Links (crates/lunatic-process/src/state.rs): `ProcessLifecycleHandle` with `link_pair`,
--   `unlink_peer`, `terminate` and the `Drop` of `LinkState`: relations that both processes of a link
--   hold, under one token.
-- - Environment (crates/lunatic-process/src/env.rs): the process slots of an environment, the quota
--   that the environments of a node share (Node), the guard of a process's membership
--   (Registration), and the registry that holds environments weakly by generations (Generations).
-- - ModuleRegistry (crates/lunatic-process/src/module_registry.rs): versions, the committed one, the
--   cleanup of old ones, and which process runs on which.
--   ReloadOrder is `get_reload_order`, a search over the modules that depend on a module.
-- - Reload (crates/lunatic-process/src/hot_reload.rs): the coordinator of hot reloads: `start_reload`,
--   the collection of acknowledgements, `perform_atomic_reload` with its roll-back, and in
--   Coordinated `perform_coordinated_reload`, which asks the ModuleRegistry for the order, the
--   processes and the committed versions, and marks what is committed.
-- - Supervisor (crates/lunatic-otp-patterns/src/supervisor.rs): children with their starts and stops,
--   Restarts with the restart policies, strategies and intensity, and Process, the process that owns
--   a supervisor, with the guard that kills what is left.
-- - HashMapId (crates/hash-map-id/src/lib.rs): the map that gives resources their ids.
-- - External: the third-party components as interfaces, which the parts take as parameters: tokio's
--   `Semaphore` and dashmap's `DashMap`. Each has a concrete value, which the examples use.
--   What a supervisor uses of its environment and children is an interface of its own (Runtime).
-- - Prelude: shared names, Boolean tests, lists over the native numbers, association lists.
--
-- State is passed explicitly: a method on `&self` that changes shared state takes the state and
-- returns the next. A lock held over a body makes the body one step; a call of an asynchronous
-- method is the step up to its first `await`, and each later poll is another. A method that can
-- panic returns an `Option`, whose `none` is the panic. Errors are values, as in the source.
-- Numbers are natural numbers; where the source has `u64` or `usize` with a checked operation, its
-- limit of 64 bits is written out. Identities of shared objects (`Arc`s, wakers, channels) are
-- numbers. A map of the standard library whose entries the code visits is a list of them, in the
-- order of the visit. The recursion of `get_reload_order` takes fuel, more of it than there are dependencies,
-- each of which is followed once; the other loops go over the lists that the code keeps. A wait for
-- the end of a process takes the number of looks that its limit allows.
--
-- Bounds of the model: calls run one after the other, each as one step, except that the end of an
-- environment and the drop of its lifetime are two. The observers of a signal ingress are processes
-- other than its own. What processes answer in a reload is a list of replies, in the order in which
-- they arrive before the deadline. What reaches a supervisor is a list of events. Metrics, logging
-- and the texts of errors are left out. Not modelled: the main loop of a process, the
-- comparison of module versions, the handle of a supervisor, the Wasm engine, the distributed
-- part, the OTP servers, the guest APIs and the command line.
pub mod Prelude
pub mod External
pub mod Message
pub mod Mailbox
pub mod Signals
pub mod Environment
pub mod ModuleRegistry
pub mod Links
pub mod Reload
pub mod Supervisor
pub mod HashMapId
