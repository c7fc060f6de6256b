-- ===== src/Causal/Nearest.antt =====
-- whyslow-cli/src/causal.rs: the events by type, and the two searches in a bounded window.
use whyslow.Base.{
  ℕ, ◌-◌, Bool, ◌&&◌, Option, List, [], ◌∷◌, ◌++◌, ◌==◌, leb, if◌then◌else◌, keep_if, max_by_key,
  min_by_key,
}
use whyslow.Event.Schema.{event_sched_block, event_futex_wait, event_futex_wake, event_block_io}
use whyslow.Trace.Defs.{TraceEvent}

abbrev pub match_window_ns : ℕ
match_window_ns = 5_000_000

abbrev pub max_chain_depth : ℕ
max_chain_depth = 8

pub record Typed : Type 0 where
  pub block : List TraceEvent
  pub futex_wait : List TraceEvent
  pub futex_wake : List TraceEvent
  pub block_io : List TraceEvent

-- One round of the loop in `partition`.
unfoldable pub sort_in : Typed → TraceEvent → Typed
sort_in t e =
    if e.event_type == event_sched_block
    then record t { block = t.block ++ e ∷ [] }
    else if e.event_type == event_futex_wait
    then record t { futex_wait = t.futex_wait ++ e ∷ [] }
    else if e.event_type == event_futex_wake
    then record t { futex_wake = t.futex_wake ++ e ∷ [] }
    else if e.event_type == event_block_io
    then record t { block_io = t.block_io ++ e ∷ [] }
    else t

unfoldable pub partition_onto : Typed → List TraceEvent → Typed
unfolding sort_in
partition_onto t [] = t
partition_onto t (e ∷ es) = partition_onto (sort_in t e) es

-- `Typed::partition`.
unfoldable pub partition : List TraceEvent → Typed
unfolding partition_onto
partition events =
    partition_onto (record { block = []; futex_wait = []; futex_wake = []; block_io = [] }) events

-- The filter of `nearest_preceding`: `pred`, and at or before the anchor within the window.
abbrev pub precedes : ℕ → (TraceEvent → Bool) → TraceEvent → Bool
precedes anchor_ts pred e =
    pred e && leb e.timestamp_ns anchor_ts && leb (anchor_ts - e.timestamp_ns) match_window_ns

-- The filter of `nearest_following`.
abbrev pub follows : ℕ → (TraceEvent → Bool) → TraceEvent → Bool
follows anchor_ts pred e =
    pred e && leb anchor_ts e.timestamp_ns && leb (e.timestamp_ns - anchor_ts) match_window_ns

abbrev pub end_of : TraceEvent → ℕ
end_of e = e.timestamp_ns

unfoldable pub nearest_preceding : List TraceEvent → ℕ → (TraceEvent → Bool) → Option TraceEvent
nearest_preceding candidates anchor_ts pred =
    max_by_key end_of (keep_if (precedes anchor_ts pred) candidates)

unfoldable pub nearest_following : List TraceEvent → ℕ → (TraceEvent → Bool) → Option TraceEvent
nearest_following candidates anchor_ts pred =
    min_by_key end_of (keep_if (follows anchor_ts pred) candidates)
