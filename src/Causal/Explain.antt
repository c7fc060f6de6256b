-- ===== src/Causal/Explain.antt =====
-- whyslow-cli/src/causal.rs: `explain_one_stall`, `explain` and `print_chains`.
use whyslow.Base.{ℕ, zero, suc, ◌-◌, Option, none, some, List, [], ◌∷◌, ◌++◌, length}
use whyslow.Base.Text.{Text, codes, decimal, repeat}
use whyslow.Ui.Paint.{bold_cyan, dim}
use whyslow.Trace.Defs.{TraceEvent, TraceFile, wall_ns_for}
use whyslow.Causal.Nearest.{Typed, partition, max_chain_depth}
use whyslow.Causal.Classify.{Cause, futex, block_io, unknown, classify_resume_cause}
use whyslow.Causal.Env.{Env}
use whyslow.Causal.Device.{DevNames, no_names}
use whyslow.Causal.Format.{format_wall_time, futex_text, headline, headline_unknown}
use whyslow.Causal.Walk.{io_text, walk_from_futex_wait}
use whyslow.Causal.Ranking.{slowest_blocks}

pub record Chain : Type 0 where
  pub lines : List Text

module _ (env : Env) where
  -- The lines of a stall from its cause, behind the headline's wall time. The walk has the fuel for
  -- the hops below the limit; `none` would mean that it ran out.
  unfoldable pub lines_of :
      Text → TraceEvent → Typed → DevNames → Cause → Option (List Text × DevNames)
  lines_of wall block typed names (futex wait) =
      let head = headline env wall block.tid block.duration_ns (futex_text env wait.key) in
      walk_from_futex_wait env max_chain_depth typed wait names 1 (head ∷ [])
  lines_of wall block typed names (block_io io) =
      let (what, names') = io_text env io names in
      some (headline env wall block.tid block.duration_ns what ∷ [], names')
  lines_of wall block typed names unknown =
      some (headline_unknown env wall block.tid block.duration_ns ∷ [], names)

  unfoldable pub explain_one_stall :
      TraceEvent → TraceFile → Typed → DevNames → Option (Chain × DevNames)
  explain_one_stall block trace typed names =
      let start_ts = block.timestamp_ns - block.duration_ns in
      let wall = format_wall_time env (wall_ns_for trace start_ts) in
      let cause = classify_resume_cause block.tid block.timestamp_ns typed in
      elim (lines_of wall block typed names cause) [
        | none ↦ none
        | some (lines, names') ↦ some (record { lines = lines }, names')
      ]

  -- `blocks.into_iter().map(…).collect()`, with the cache handed from one stall to the next.
  unfoldable pub explain_all : List TraceEvent → TraceFile → Typed → DevNames → Option (List Chain)
  explain_all [] trace typed names = some []
  explain_all (b ∷ bs) trace typed names = elim (explain_one_stall b trace typed names) [
    | none ↦ none
    | some (chain, names') ↦ elim (explain_all bs trace typed names') [
      | none ↦ none
      | some chains ↦ some (chain ∷ chains)
    ]
  ]

  unfoldable pub explain : TraceFile → ℕ → Option (List Chain)
  unfolding explain_all
  explain trace slowest =
      let typed = partition trace.events in
      explain_all (slowest_blocks slowest typed.block) trace typed no_names

  -- The lines for the chains from the `i`-th on, with a rule before each but the first.
  print_from : ℕ → List Chain → List Text
  print_from i [] = []
  print_from zero (c ∷ cs) = c.lines ++ print_from 1 cs
  print_from (suc i) (c ∷ cs) =
      dim env.terminal (repeat 60 (codes "─")) ∷ c.lines ++ print_from (suc (suc i)) cs

  -- What `print_chains` prints, a line to an entry.
  unfoldable pub print_chains : List Chain → List Text
  unfolding print_from
  print_chains [] =
      codes
        "whyslow: no blocked intervals recorded (process may not have stalled, or trace is empty)"
      ∷ []
  print_chains (c ∷ cs) =
      bold_cyan env.terminal (codes "▶ " ++ decimal (length (c ∷ cs)) ++ codes " slowest stall(s):")
      ∷ []
      ∷ print_from 0 (c ∷ cs)
