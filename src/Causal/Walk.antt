-- ===== src/Causal/Walk.antt =====
-- whyslow-cli/src/causal.rs: `walk_from_futex_wait`, on fuel.
use whyslow.Base.{
  ℕ, zero, suc, ◌+◌, ◌-◌, Option, none, some, List, [], ◌∷◌, ◌++◌, ◌==◌, leb, if◌then◌else◌,
}
use whyslow.Base.Text.{Text}
use whyslow.Event.Schema.{unpack_block_key}
use whyslow.Trace.Defs.{TraceEvent}
use whyslow.Causal.Nearest.{Typed, nearest_preceding, max_chain_depth}
use whyslow.Causal.Classify.{Cause, futex, block_io, unknown, classify_prior_cause}
use whyslow.Causal.Env.{Env}
use whyslow.Causal.Device.{DevNames, name}
use whyslow.Causal.Format.{futex_text, block_io_text, woken_line, blocked_line}

-- The wake that ended a futex wait.
unfoldable pub waker : Typed → TraceEvent → Option TraceEvent
waker typed wait = nearest_preceding typed.futex_wake wait.timestamp_ns (λ e. e.key == wait.key)

-- What the waker did before its call of `futex`.
unfoldable pub before_wake : Typed → TraceEvent → Cause
before_wake typed wake =
    let wake_start_ts = wake.timestamp_ns - wake.duration_ns in
    classify_prior_cause wake.tid wake_start_ts typed

module _ (env : Env) where
  -- The text of a block I/O event, with its device looked up in the cache.
  unfoldable pub io_text : TraceEvent → DevNames → Text × DevNames
  io_text io names =
      let (dev, sector) = unpack_block_key io.key in
      let (dev_name, names') = name env names dev in (block_io_text env dev_name sector, names')

  -- The end of the body, by the waker's own cause; `go` is the recursive call.
  unfoldable pub continue_from :
      (TraceEvent → DevNames → ℕ → List Text → Option (List Text × DevNames))
      → TraceEvent
      → Cause
      → DevNames
      → ℕ
      → List Text
      → Option (List Text × DevNames)
  continue_from go wake (futex next_wait) names depth lines =
      let line = blocked_line env wake.tid next_wait.duration_ns (futex_text env next_wait.key) in
      go next_wait names (depth + 1) (lines ++ line ∷ [])
  continue_from go wake (block_io io) names depth lines =
      let (what, names') = io_text io names in
      some (lines ++ blocked_line env wake.tid io.duration_ns what ∷ [], names')
  continue_from go wake unknown names depth lines = some (lines, names)

  -- The lines after the call, and the cache; `none` if the fuel runs out.
  unfoldable pub walk_from_futex_wait :
      ℕ → Typed → TraceEvent → DevNames → ℕ → List Text → Option (List Text × DevNames)
  walk_from_futex_wait zero typed wait names depth lines = none
  walk_from_futex_wait (suc fuel) typed wait names depth lines = elim (waker typed wait) [
    | none ↦ some (lines, names)
    | some wake ↦
        let lines' = lines ++ woken_line env wake.tid ∷ [] in
        let deeper =
          continue_from (walk_from_futex_wait fuel typed) wake (before_wake typed wake) names depth
            lines' in
        if leb max_chain_depth depth then some (lines', names) else deeper
  ]
