-- ===== src/Causal/Classify.antt =====
-- whyslow-cli/src/causal.rs: what a thread was blocked on when it resumed, and what a thread did
-- before a given time.
use whyslow.Base.{ℕ, ◌-◌, Option, none, some, ◌==◌, leb, if◌then◌else◌}
use whyslow.Trace.Defs.{TraceEvent}
use whyslow.Causal.Nearest.{Typed, nearest_preceding, nearest_following}

pub data Cause : Type 0 where
  futex : (wait : TraceEvent) → Cause
  block_io : (io : TraceEvent) → Cause
  unknown : Cause

-- The `match` of `classify_resume_cause`; `saturating_sub` stops at 0.
unfoldable pub closer : ℕ → Option TraceEvent → Option TraceEvent → Cause
closer resume_ts (some f) (some i) =
    let f_dist = f.timestamp_ns - resume_ts in
    let io_dist = resume_ts - i.timestamp_ns in if leb f_dist io_dist then futex f else block_io i
closer resume_ts (some f) none = futex f
closer resume_ts none (some i) = block_io i
closer resume_ts none none = unknown

unfoldable pub classify_resume_cause : ℕ → ℕ → Typed → Cause
unfolding closer
classify_resume_cause tid resume_ts typed =
    closer resume_ts (nearest_following typed.futex_wait resume_ts (λ e. e.tid == tid))
      (nearest_preceding typed.block_io resume_ts (λ e. e.tid == tid))

-- The `match` of `classify_prior_cause`.
unfoldable pub later : Option TraceEvent → Option TraceEvent → Cause
later (some f) (some i) = if leb i.timestamp_ns f.timestamp_ns then futex f else block_io i
later (some f) none = futex f
later none (some i) = block_io i
later none none = unknown

unfoldable pub classify_prior_cause : ℕ → ℕ → Typed → Cause
unfolding later
classify_prior_cause tid anchor_ts typed =
    later (nearest_preceding typed.futex_wait anchor_ts (λ e. e.tid == tid))
      (nearest_preceding typed.block_io anchor_ts (λ e. e.tid == tid))
