-- ===== src/Causal/Cause.antt =====
-- whyslow-cli/src/causal.rs: an independent description of the two classifications, and the proof
-- that the code meets it on every branch.
use whyslow.Base.{
  ℕ, ◌-◌, ◌≤◌, ◌<◌, ◌≡◌, refl, inl, inr, Bool, Option, none, some, arith, ◌==◌, Bool-cases, leb,
  Elem, LastMaxOf, FirstMinOf, LastMaxOf-le, FirstMinOf-le,
}
use whyslow.Trace.Defs.{TraceEvent}
use whyslow.Causal.Nearest.{Typed, nearest_preceding, nearest_following, end_of}
use whyslow.Causal.Window.{
  InWindowBefore, InWindowAfter, nearest_preceding_iff, nearest_following_iff,
  nearest_preceding-none_iff, nearest_following-none_iff,
}
use whyslow.Causal.Classify.{
  Cause, futex, block_io, unknown, closer, later, classify_resume_cause, classify_prior_cause,
}

-- `c` is an event of the thread that ends in the window before the anchor, or after it.
abbrev pub EndsBefore : ℕ → ℕ → TraceEvent → Type 0
EndsBefore tid anchor = InWindowBefore anchor (λ e. e.tid == tid)

abbrev pub EndsAfter : ℕ → ℕ → TraceEvent → Type 0
EndsAfter tid anchor = InWindowAfter anchor (λ e. e.tid == tid)

-- A resume at `at` is explained by the earliest futex wait of the thread at or after it, unless an
-- I/O completion of the thread before it is strictly nearer; then by the latest such completion.
abbrev pub ExplainsResume : ℕ → ℕ → Typed → Cause → Type 0
ExplainsResume tid at t (futex f) =
    FirstMinOf (EndsAfter tid at) end_of f t.futex_wait
    × ((c : TraceEvent)
        → Elem c t.block_io
        → EndsBefore tid at c
        → f.timestamp_ns - at ≤ at - c.timestamp_ns)
ExplainsResume tid at t (block_io i) =
    LastMaxOf (EndsBefore tid at) end_of i t.block_io
    × ((c : TraceEvent)
        → Elem c t.futex_wait
        → EndsAfter tid at c
        → at - i.timestamp_ns < c.timestamp_ns - at)
ExplainsResume tid at t unknown =
    ((c : TraceEvent) → Elem c t.futex_wait → ¬ EndsAfter tid at c)
    × ((c : TraceEvent) → Elem c t.block_io → ¬ EndsBefore tid at c)

-- What a thread did before `at`: its latest futex wait, unless an I/O completion of the thread is
-- strictly later; then the latest such completion.
abbrev pub ExplainsPrior : ℕ → ℕ → Typed → Cause → Type 0
ExplainsPrior tid at t (futex f) =
    LastMaxOf (EndsBefore tid at) end_of f t.futex_wait
    × ((c : TraceEvent) → Elem c t.block_io → EndsBefore tid at c → c.timestamp_ns ≤ f.timestamp_ns)
ExplainsPrior tid at t (block_io i) =
    LastMaxOf (EndsBefore tid at) end_of i t.block_io
    × ((c : TraceEvent)
        → Elem c t.futex_wait
        → EndsBefore tid at c
        → c.timestamp_ns < i.timestamp_ns)
ExplainsPrior tid at t unknown =
    ((c : TraceEvent) → Elem c t.futex_wait → ¬ EndsBefore tid at c)
    × ((c : TraceEvent) → Elem c t.block_io → ¬ EndsBefore tid at c)

module _ (tid at : ℕ) (t : Typed) where
  abbrev mine : TraceEvent → Bool
  mine e = e.tid == tid

  closer-ExplainsResume :
      (fw io : Option TraceEvent)
      → nearest_following t.futex_wait at mine ≡ fw
      → nearest_preceding t.block_io at mine ≡ io
      → ExplainsResume tid at t (closer at fw io)
  unfolding closer
  closer-ExplainsResume (some f) (some i) p q =
      let first = (nearest_following_iff at mine t.futex_wait f).0 p in
      let last = (nearest_preceding_iff at mine t.block_io i).0 q in
      elim (Bool-cases (leb (f.timestamp_ns - at) (at - i.timestamp_ns))) [
        | inl near ↦ rw near (first, λ c m w. ground (arith, LastMaxOf-le last m w))
        | inr far ↦ rw far (last, λ c m w. ground (arith, FirstMinOf-le first m w))
      ]
  closer-ExplainsResume (some f) none p q = (
    (nearest_following_iff at mine t.futex_wait f).0 p,
    λ c m w. absurd ((nearest_preceding-none_iff at mine t.block_io).0 q c m w),
  )
  closer-ExplainsResume none (some i) p q = (
    (nearest_preceding_iff at mine t.block_io i).0 q,
    λ c m w. absurd ((nearest_following-none_iff at mine t.futex_wait).0 p c m w),
  )
  closer-ExplainsResume none none p q = (
    (nearest_following-none_iff at mine t.futex_wait).0 p,
    (nearest_preceding-none_iff at mine t.block_io).0 q,
  )

  -- Whatever `classify_resume_cause` answers is right by `ExplainsResume`: the thread's earliest
  -- futex wait in the window after the resume if no I/O completion of the thread in the window
  -- before it is strictly nearer, else the latest such completion, and unknown only if the thread
  -- has neither.
  pub classify_resume_cause-ExplainsResume :
      ExplainsResume tid at t (classify_resume_cause tid at t)
  unfolding classify_resume_cause
  classify_resume_cause-ExplainsResume = closer-ExplainsResume _ _ refl refl

  later-ExplainsPrior :
      (fw io : Option TraceEvent)
      → nearest_preceding t.futex_wait at mine ≡ fw
      → nearest_preceding t.block_io at mine ≡ io
      → ExplainsPrior tid at t (later fw io)
  unfolding later
  later-ExplainsPrior (some f) (some i) p q =
      let wait = (nearest_preceding_iff at mine t.futex_wait f).0 p in
      let last = (nearest_preceding_iff at mine t.block_io i).0 q in
      elim (Bool-cases (leb i.timestamp_ns f.timestamp_ns)) [
        | inl near ↦ rw near (wait, λ c m w. ground (arith, LastMaxOf-le last m w))
        | inr far ↦ rw far (last, λ c m w. ground (arith, LastMaxOf-le wait m w))
      ]
  later-ExplainsPrior (some f) none p q = (
    (nearest_preceding_iff at mine t.futex_wait f).0 p,
    λ c m w. absurd ((nearest_preceding-none_iff at mine t.block_io).0 q c m w),
  )
  later-ExplainsPrior none (some i) p q = (
    (nearest_preceding_iff at mine t.block_io i).0 q,
    λ c m w. absurd ((nearest_preceding-none_iff at mine t.futex_wait).0 p c m w),
  )
  later-ExplainsPrior none none p q = (
    (nearest_preceding-none_iff at mine t.futex_wait).0 p,
    (nearest_preceding-none_iff at mine t.block_io).0 q,
  )

  -- Whatever `classify_prior_cause` answers is right by `ExplainsPrior`: the thread's latest futex
  -- wait in the window before the anchor if no I/O completion of the thread there is strictly
  -- later, else the latest such completion, and unknown only if the thread has neither.
  pub classify_prior_cause-ExplainsPrior : ExplainsPrior tid at t (classify_prior_cause tid at t)
  unfolding classify_prior_cause
  classify_prior_cause-ExplainsPrior = later-ExplainsPrior _ _ refl refl
