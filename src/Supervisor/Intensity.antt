-- ===== src/Supervisor/Intensity.antt =====
-- crates/lunatic-otp-patterns/src/supervisor.rs, `reserve_restart_events`: how many restarts are
-- granted in a window of time.
use lunatic.Prelude.{
  ℕ, suc, ◌+◌, ◌-◌, ◌≤◌, ◌<◌, ◌≡◌, ◌⊎◌, inl, inr, refl, ap, List, [], ◌∷◌, ◌++◌, none, some, ◌&&◌,
  if◌then◌else◌, ltb, leb, arith, length, length-append, Bool-cases,
}
use lunatic.Supervisor.{Error, intensity_exceeded, RestartEvent, Supervisor}
use lunatic.Supervisor.Restarts.{retain_events, events_at, reserve_restart_events}

-- How many events are not before a time, and how many are within some seconds from a time.
unfoldable pub since : ℕ → List RestartEvent → ℕ
since from [] = 0
since from (e ∷ es) = let rest = since from es in if leb from e.timestamp then suc rest else rest

unfoldable pub within : ℕ → ℕ → List RestartEvent → ℕ
within from seconds [] = 0
within from seconds (e ∷ es) =
    let rest = within from seconds es in
    if leb from e.timestamp && leb e.timestamp (from + seconds) then suc rest else rest

-- Requests for restarts, each with its time and the children, and every restart that was granted.
unfoldable pub reservations :
    List (ℕ × List ℕ) → Supervisor → List RestartEvent → Supervisor × List RestartEvent
reservations [] s granted = (s, granted)
reservations ((now, ids) ∷ requests) s granted =
    let (refused, s') = reserve_restart_events ids now s in
    elim refused [
      | none ↦ reservations requests s' (granted ++ events_at now ids)
      | some e ↦ reservations requests s' granted
    ]

-- The clock does not go back.
abbrev pub Ordered : ℕ → List (ℕ × List ℕ) → Type 0
Ordered before [] = Unit
Ordered before ((now, ids) ∷ requests) = (before ≤ now) × Ordered now requests

since-append :
    (from : ℕ) (es fs : List RestartEvent) → since from (es ++ fs) ≡ since from es + since from fs
unfolding since
since-append from [] fs = omega arith
since-append from (e ∷ es) fs = ground (arith, since-append from es fs)

within-append :
    (from d : ℕ) (es fs : List RestartEvent)
    → within from d (es ++ fs) ≡ within from d es + within from d fs
unfolding within
within-append from d [] fs = omega arith
within-append from d (e ∷ es) fs = ground (arith, within-append from d es fs)

within-le-since : (from d : ℕ) (es : List RestartEvent) → within from d es ≤ since from es
unfolding within since
within-le-since from d [] = omega arith
within-le-since from d (e ∷ es) = ground (arith, within-le-since from d es)

since-le-length : (from : ℕ) (es : List RestartEvent) → since from es ≤ length es
unfolding since
since-le-length from [] = omega arith
since-le-length from (e ∷ es) = ground (arith, since-le-length from es)

since-retain :
    (start from : ℕ) (es : List RestartEvent)
    → start ≤ from
    → since from (retain_events start es) ≡ since from es
unfolding since retain_events
since-retain start from [] h = refl
since-retain start from (e ∷ es) h = ground (arith, since-retain start from es h, h)

length-retain : (start : ℕ) (es : List RestartEvent) → length (retain_events start es) ≤ length es
unfolding retain_events
length-retain start [] = omega arith
length-retain start (e ∷ es) = ground (arith, length-retain start es)

length-events_at : (now : ℕ) (ids : List ℕ) → length (events_at now ids) ≡ length ids
unfolding events_at
length-events_at now [] = refl
length-events_at now (id ∷ ids) = omega (arith, length-events_at now ids)

within-events_at_later :
    (from d now : ℕ) (ids : List ℕ) → from + d < now → within from d (events_at now ids) ≡ 0
unfolding within events_at
within-events_at_later from d now [] h = refl
within-events_at_later from d now (id ∷ ids) h =
    ground (arith, within-events_at_later from d now ids h, h)

-- The history knows every grant that the window reaches back to, and is within the limit.
record Limited (now : ℕ) (s : Supervisor) (granted : List RestartEvent) : Type 0 where
  remembers :
      (from : ℕ)
      → now - s.spec.max_seconds ≤ from
      → since from granted ≡ since from s.restart_history
  bounded : length s.restart_history ≤ s.spec.max_restarts
  limited : (from : ℕ) → within from s.spec.max_seconds granted ≤ s.spec.max_restarts

refused-Limited :
    (before now : ℕ) (s : Supervisor) (granted : List RestartEvent)
    → before ≤ now
    → Limited before s granted
    → Limited now
        (record s { restart_history = retain_events (now - s.spec.max_seconds) s.restart_history })
        granted
refused-Limited before now s granted order l = record {
  remembers = λ from h. omega (
    arith,
    l.remembers from (omega arith),
    since-retain (now - s.spec.max_seconds) from s.restart_history h,
  );
  bounded = omega (arith, length-retain (now - s.spec.max_seconds) s.restart_history, l.bounded);
  limited = l.limited;
}

granted-Limited :
    (before now : ℕ) (ids : List ℕ) (s : Supervisor) (granted : List RestartEvent)
    → before ≤ now
    → Limited before s granted
    → let kept = retain_events (now - s.spec.max_seconds) s.restart_history in
      length kept + length ids ≤ s.spec.max_restarts
      → Limited now
          (record s { restart_history = kept ++ events_at now ids })
          (granted ++ events_at now ids)
granted-Limited before now ids s granted order l room =
    let kept = retain_events (now - s.spec.max_seconds) s.restart_history in
    let fresh = events_at now ids in
    let older = refused-Limited before now s granted order l in
    record {
      remembers = λ from h. omega (
        arith,
        older.remembers from h,
        since-append from granted fresh,
        since-append from kept fresh,
      );
      bounded = omega (arith, length-append kept fresh, length-events_at now ids, room);
      limited = λ from. elim (Bool-cases (ltb (from + s.spec.max_seconds) now)) [
        | inl past ↦ omega (
          arith,
          within-append from s.spec.max_seconds granted fresh,
          within-events_at_later from s.spec.max_seconds now ids (ground (arith, past)),
          l.limited from,
        )
        | inr reached ↦
            let reaches : now - s.spec.max_seconds ≤ from = ground (arith, reached) in
            omega (
              arith,
              within-le-since from s.spec.max_seconds (granted ++ fresh),
              since-append from granted fresh,
              older.remembers from reaches,
              since-append from kept fresh,
              since-le-length from (kept ++ fresh),
              length-append kept fresh,
              length-events_at now ids,
              room,
            )
      ];
    }

-- A request is refused, or there is room for it.
reserve-cases :
    (ids : List ℕ) (now : ℕ) (s : Supervisor)
    → let kept = retain_events (now - s.spec.max_seconds) s.restart_history in
      ((e : Error) × (reserve_restart_events ids now s
          ≡ (some e, record s { restart_history = kept })))
      ⊎ ((length kept + length ids ≤ s.spec.max_restarts)
          × (reserve_restart_events ids now s
              ≡ (none, record s { restart_history = kept ++ events_at now ids })))
unfolding reserve_restart_events
reserve-cases ids now s =
    let kept = retain_events (now - s.spec.max_seconds) s.restart_history in
    elim (Bool-cases (ltb s.spec.max_restarts (length kept + length ids))) [
      | inl over ↦
          inl
            (intensity_exceeded (length kept) (length ids), rw (over, reserve_restart_events) refl)
      | inr room ↦ inr (ground (arith, room), rw (room, reserve_restart_events) refl)
    ]

within-reservations :
    (before : ℕ) (requests : List (ℕ × List ℕ)) (s : Supervisor) (granted : List RestartEvent)
    → Ordered before requests
    → Limited before s granted
    → (from : ℕ)
    → within from s.spec.max_seconds (reservations requests s granted).1 ≤ s.spec.max_restarts
unfolding reservations
within-reservations before [] s granted order l from = l.limited from
within-reservations before ((now, ids) ∷ requests) s granted (order, later) l from =
    elim (reserve-cases ids now s) [
      | inl (refusal, e) ↦
          rw (ap (λ r. r.0) e, ap (λ r. r.1) e, reservations)
            (within-reservations now requests _ granted later
              (refused-Limited before now s granted order l) from)
      | inr (room, e) ↦
          rw (ap (λ r. r.0) e, ap (λ r. r.1) e, reservations)
            (within-reservations now requests _ _ later
              (granted-Limited before now ids s granted order l room) from)
    ]

-- Whatever restarts are requested of a supervisor, at times that do not go back: in every window of
-- `max_seconds` seconds, wherever it begins, at most `max_restarts` restarts are granted.
pub window-limited :
    (requests : List (ℕ × List ℕ)) (s : Supervisor) (from : ℕ)
    → s.restart_history ≡ []
    → Ordered 0 requests
    → within from s.spec.max_seconds (reservations requests s []).1 ≤ s.spec.max_restarts
unfolding since within
window-limited requests s from fresh order =
    within-reservations 0 requests s [] order
      (record {
        remembers = λ w h. rw fresh refl;
        bounded = rw fresh (omega arith);
        limited = λ w. omega arith;
      })
      from
