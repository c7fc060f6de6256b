-- ===== src/Bpf/Drain.antt =====
-- whyslow-cli/src/bpf.rs: `drain_ring_buffer`. The kernel fills the ring buffer while it is drained:
-- a round is what `ring.next()` gives before it gives `None`, and then what `should_stop` answers.
-- The wait in `poll` separates two rounds.
use whyslow.Base.{
  ℕ, ◌≡◌, refl, sym, ap, Option-cases, inl, inr, ◌∙◌, Bool, true, false, Option, none, some, List,
  [], ◌∷◌, ◌++◌, map, if◌then◌else◌, All, length,
}
use mathlib.Core.List.{append_assoc, append-nil}
use whyslow.Base.Result.{ok, err, Anyhow, Lookup, missing, refused, found}
use whyslow.Base.Text.{codes}
use whyslow.Event.Schema.{Event, InRange}
use whyslow.Trace.Defs.{TraceEvent, from_event}
use whyslow.Bpf.Layout.{decode_event, in_memory, decode_event-in_memory}

abbrev pub Item : Type 0
Item = List ℕ

pub record Round : Type 0 where
  pub items : List Item
  pub stop : Bool

-- `while let Some(item) = ring.next()`.
unfoldable pub pull : List Item → List TraceEvent → List TraceEvent
pull [] events = events
pull (item ∷ items) events =
    pull items (elim (decode_event item) [ none ↦ events | some ev ↦ events ++ from_event ev ∷ [] ])

-- `none` where the rounds run out before one stops. `last` is what the last drain finds.
unfoldable pub drain_loop : List Round → List Item → List TraceEvent → Option (List TraceEvent)
drain_loop [] last events = none
drain_loop (r ∷ rounds) last events =
    let pulled = pull r.items events in
    let rest = drain_loop rounds last pulled in if r.stop then some (pull last pulled) else rest

unfoldable pub drain_ring_buffer :
    Lookup → List Round → List Item → Option (Anyhow (List TraceEvent))
drain_ring_buffer missing rounds last = some (err (codes "EVENTS map missing from object" ∷ []))
drain_ring_buffer (refused why) rounds last = some (err why)
drain_ring_buffer found rounds last = elim (drain_loop rounds last []) [
  | none ↦ none
  | some events ↦ some (ok events)
]

-- The items of the rounds, in order.
abbrev pub all_items : List Round → List Item
all_items [] = []
all_items (r ∷ rounds) = r.items ++ all_items rounds

-- What the items decode to.
abbrev pub decoded : List Item → List TraceEvent
decoded [] = []
decoded (item ∷ items) = elim (decode_event item) [
  | none ↦ decoded items
  | some ev ↦ from_event ev ∷ decoded items
]

pull_lem :
    (items : List Item) (events : List TraceEvent) → pull items events ≡ events ++ decoded items
unfolding pull
pull_lem [] events = sym (append-nil events)
pull_lem (item ∷ items) events = elim (Option-cases (decode_event item)) [
  | inl bad ↦ rw (bad, pull, decoded) (pull_lem items events)
  | inr (ev, good) ↦
      rw (good, pull, decoded)
        (pull_lem items (events ++ from_event ev ∷ [])
          ∙ append_assoc events (from_event ev ∷ []) (decoded items))
]

decoded-append : (xs ys : List Item) → decoded (xs ++ ys) ≡ decoded xs ++ decoded ys
decoded-append [] ys = refl
decoded-append (item ∷ xs) ys = elim (Option-cases (decode_event item)) [
  | inl bad ↦ rw (bad, decoded) (decoded-append xs ys)
  | inr (ev, good) ↦ rw (good, decoded) (ap (◌∷◌ (from_event ev)) (decoded-append xs ys))
]

drain_loop_lem :
    (rounds later : List Round) (r : Round) (last : List Item) (events : List TraceEvent)
    → All (λ q. q.stop ≡ false) rounds
    → r.stop ≡ true
    → drain_loop (rounds ++ r ∷ later) last events
      ≡ some (events ++ decoded (all_items rounds ++ (r.items ++ last)))
unfolding drain_loop
drain_loop_lem [] later r last events quiet stops =
    rw
      (
        stops,
        pull_lem r.items events,
        pull_lem last (events ++ decoded r.items),
        decoded-append r.items last,
      )
      (ap some (append_assoc events (decoded r.items) (decoded last)))
drain_loop_lem (q ∷ rounds) later r last events quiet stops =
    rw (quiet.0, pull_lem q.items events)
      (drain_loop_lem rounds later r last (events ++ decoded q.items) quiet.1 stops
        ∙ ap some (
            append_assoc events (decoded q.items) (decoded (all_items rounds ++ (r.items ++ last)))
            ∙ ap (λ x. events ++ x)
                (sym (decoded-append q.items (all_items rounds ++ (r.items ++ last)))
                  ∙ ap decoded (sym (append_assoc q.items (all_items rounds) (r.items ++ last))))))

-- The bytes of events, each with its padding.
abbrev pub Sent : Type 0
Sent = Event × List ℕ

abbrev pub IsWhole : Sent → Type 0
IsWhole sent = InRange sent.0 × (length sent.1 ≡ 4)

abbrev pub bytes : Sent → Item
bytes sent = in_memory sent.0 sent.1

decoded-bytes :
    (sent : List Sent)
    → All IsWhole sent
    → decoded (map bytes sent) ≡ map (λ x. from_event x.0) sent
decoded-bytes [] whole = refl
decoded-bytes (x ∷ sent) whole =
    rw (decode_event-in_memory x.0 x.1 whole.0.0 whole.0.1, decoded)
      (ap (◌∷◌ (from_event x.0)) (decoded-bytes sent whole.1))

-- If the items that the rounds up to the first that stops and the last drain find are, one after the
-- other, the bytes of events in the ranges of their types, then the drain ends with exactly the trace
-- events of these, in order: none is lost, doubled or taken from a later round.
pub drain_ring_buffer-events :
    (rounds later : List Round) (r : Round) (last : List Item) (sent : List Sent)
    → All (λ q. q.stop ≡ false) rounds
    → r.stop ≡ true
    → All IsWhole sent
    → all_items rounds ++ (r.items ++ last) ≡ map bytes sent
    → drain_ring_buffer found (rounds ++ r ∷ later) last
      ≡ some (ok (map (λ x. from_event x.0) sent))
unfolding drain_ring_buffer
drain_ring_buffer-events rounds later r last sent quiet stops whole same = rw (
  drain_loop_lem rounds later r last [] quiet stops,
  drain_ring_buffer,
  same,
  decoded-bytes sent whole,
)

drain_loop-running :
    (rounds : List Round) (last : List Item) (events : List TraceEvent)
    → All (λ q. q.stop ≡ false) rounds
    → drain_loop rounds last events ≡ none
unfolding drain_loop
drain_loop-running [] last events quiet = refl
drain_loop-running (q ∷ rounds) last events quiet =
    rw quiet.0 (drain_loop-running rounds last (pull q.items events) quiet.1)
