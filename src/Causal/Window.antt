-- ===== src/Causal/Window.antt =====
-- whyslow-cli/src/causal.rs: what `partition` and the two window searches compute.
use whyslow.Base.{
  ℕ, ◌+◌, ◌≤◌, ◌≡◌, ◌↔◌, ◌∙◌, Bool, true, none, some, List, [], ◌∷◌, ◌++◌, arith, ◌==◌, keep_if,
  Elem, keep_if-Elem, LastMaxOf, FirstMinOf, LastMaxOf-Elem, FirstMinOf-Elem, LastMax-keep_if,
  keep_if-LastMax, FirstMin-keep_if, keep_if-FirstMin, subst, Option-cases, inl, inr,
  max_by_key-iff_LastMax, min_by_key-iff_FirstMin, max_by_key-eq_none, min_by_key-eq_none,
}
use mathlib.Core.List.{append_assoc, append-nil}
use whyslow.Event.Schema.{event_sched_block, event_futex_wait, event_futex_wake, event_block_io}
use whyslow.Trace.Defs.{TraceEvent}
use whyslow.Causal.Nearest.{
  Typed, sort_in, partition, partition_onto, nearest_preceding, nearest_following, precedes,
  follows, end_of, match_window_ns,
}

abbrev of_type : ℕ → List TraceEvent → List TraceEvent
of_type k = keep_if (λ e. e.event_type == k)

-- Two lists of events put behind the lists of a `Typed`.
abbrev by_type : Typed → List TraceEvent → Typed
by_type t es = record {
  block = t.block ++ of_type event_sched_block es;
  futex_wait = t.futex_wait ++ of_type event_futex_wait es;
  futex_wake = t.futex_wake ++ of_type event_futex_wake es;
  block_io = t.block_io ++ of_type event_block_io es;
}

sort_in_lem :
    (t : Typed) (e : TraceEvent) (es : List TraceEvent)
    → by_type (sort_in t e) es ≡ by_type t (e ∷ es)
unfolding sort_in
sort_in_lem t e es = ground (
  arith,
  append_assoc t.block (e ∷ []) (of_type event_sched_block es),
  append_assoc t.futex_wait (e ∷ []) (of_type event_futex_wait es),
  append_assoc t.futex_wake (e ∷ []) (of_type event_futex_wake es),
  append_assoc t.block_io (e ∷ []) (of_type event_block_io es),
)

partition_onto_lem : (t : Typed) (es : List TraceEvent) → partition_onto t es ≡ by_type t es
unfolding partition_onto
partition_onto_lem t [] = simp append-nil
partition_onto_lem t (e ∷ es) = partition_onto_lem (sort_in t e) es ∙ sort_in_lem t e es

-- The four lists are the events of the four types, each in the order of the trace; events of any
-- other type are in none.
pub partition_lem :
    (events : List TraceEvent)
    → partition events ≡ record {
      block = keep_if (λ e. e.event_type == event_sched_block) events;
      futex_wait = keep_if (λ e. e.event_type == event_futex_wait) events;
      futex_wake = keep_if (λ e. e.event_type == event_futex_wake) events;
      block_io = keep_if (λ e. e.event_type == event_block_io) events;
    }
unfolding partition
partition_lem events = partition_onto_lem _ events

-- `e` may be picked by a backward search: it satisfies `pred` and ends in the window before the
-- anchor.
pub record InWindowBefore (anchor : ℕ) (pred : TraceEvent → Bool) (e : TraceEvent) : Type 0 where
  pub holds : pred e ≡ true
  pub not_after : e.timestamp_ns ≤ anchor
  pub in_window : anchor ≤ e.timestamp_ns + match_window_ns

pub record InWindowAfter (anchor : ℕ) (pred : TraceEvent → Bool) (e : TraceEvent) : Type 0 where
  pub holds : pred e ≡ true
  pub not_before : anchor ≤ e.timestamp_ns
  pub in_window : e.timestamp_ns ≤ anchor + match_window_ns

module _ (anchor : ℕ) (pred : TraceEvent → Bool) where
  precedes_iff : (e : TraceEvent) → (precedes anchor pred e ≡ true) ↔ InWindowBefore anchor pred e
  precedes_iff e = (λ h. ground arith, λ h. ground arith)

  follows_iff : (e : TraceEvent) → (follows anchor pred e ≡ true) ↔ InWindowAfter anchor pred e
  follows_iff e = (λ h. ground arith, λ h. ground arith)

  -- The backward search returns `e` exactly when `e` is the latest candidate that satisfies the
  -- predicate in the window that ends at the anchor, the last such in the list if several end at
  -- the same time.
  pub nearest_preceding_iff :
      (candidates : List TraceEvent) (e : TraceEvent)
      → (nearest_preceding candidates anchor pred ≡ some e)
        ↔ LastMaxOf (InWindowBefore anchor pred) end_of e candidates
  unfolding nearest_preceding
  nearest_preceding_iff candidates e =
      let picks = max_by_key-iff_LastMax (keep_if (precedes anchor pred) candidates) e in
      (
        λ h. LastMax-keep_if end_of (precedes anchor pred) precedes_iff e candidates (picks.0 h),
        λ l. picks.1 (keep_if-LastMax end_of (precedes anchor pred) precedes_iff l),
      )

  -- The forward search returns `e` exactly when `e` is the earliest candidate that satisfies the
  -- predicate in the window that begins at the anchor, the first such in the list if several end
  -- at the same time.
  pub nearest_following_iff :
      (candidates : List TraceEvent) (e : TraceEvent)
      → (nearest_following candidates anchor pred ≡ some e)
        ↔ FirstMinOf (InWindowAfter anchor pred) end_of e candidates
  unfolding nearest_following
  nearest_following_iff candidates e =
      let picks = min_by_key-iff_FirstMin (keep_if (follows anchor pred) candidates) e in
      (
        λ h. FirstMin-keep_if end_of (follows anchor pred) follows_iff e candidates (picks.0 h),
        λ l. picks.1 (keep_if-FirstMin end_of (follows anchor pred) follows_iff l),
      )

  -- The backward search returns nothing exactly when no candidate satisfies the predicate in the
  -- window that ends at the anchor.
  pub nearest_preceding-none_iff :
      (candidates : List TraceEvent)
      → (nearest_preceding candidates anchor pred ≡ none)
        ↔ ((c : TraceEvent) → Elem c candidates → ¬ InWindowBefore anchor pred c)
  unfolding nearest_preceding
  nearest_preceding-none_iff candidates = (
    λ h c m w.
        subst (Elem c) (max_by_key-eq_none end_of (keep_if (precedes anchor pred) candidates) h)
          (keep_if-Elem (precedes anchor pred) candidates m ((precedes_iff c).1 w)),
    λ all. elim (Option-cases (nearest_preceding candidates anchor pred)) [
      | inl e ↦ e
      | inr (a, e) ↦
          let (m, w) = LastMaxOf-Elem ((nearest_preceding_iff candidates a).0 e) in
          absurd (all a m w)
    ],
  )

  -- The forward search returns nothing exactly when no candidate satisfies the predicate in the
  -- window that begins at the anchor.
  pub nearest_following-none_iff :
      (candidates : List TraceEvent)
      → (nearest_following candidates anchor pred ≡ none)
        ↔ ((c : TraceEvent) → Elem c candidates → ¬ InWindowAfter anchor pred c)
  unfolding nearest_following
  nearest_following-none_iff candidates = (
    λ h c m w.
        subst (Elem c) (min_by_key-eq_none end_of (keep_if (follows anchor pred) candidates) h)
          (keep_if-Elem (follows anchor pred) candidates m ((follows_iff c).1 w)),
    λ all. elim (Option-cases (nearest_following candidates anchor pred)) [
      | inl e ↦ e
      | inr (a, e) ↦
          let (m, w) = FirstMinOf-Elem ((nearest_following_iff candidates a).0 e) in
          absurd (all a m w)
    ],
  )
