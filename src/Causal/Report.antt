-- ===== src/Causal/Report.antt =====
-- whyslow-cli/src/causal.rs: what `explain` returns, described by causes and chains.
use whyslow.Base.{
  ℕ, suc, ◌+◌, ◌-◌, ◌*◌, ◌≤◌, ◌≡◌, refl, ap, ◌∙◌, some, List, [], ◌∷◌, map, arith, min, length,
  length-map, All,
}
use whyslow.Base.Text.{Text}
use whyslow.Trace.Defs.{TraceEvent, TraceFile, wall_ns_for}
use whyslow.Causal.Nearest.{Typed, partition, max_chain_depth}
use whyslow.Causal.Classify.{Cause, futex, block_io, unknown, classify_resume_cause}
use whyslow.Causal.Cause.{ExplainsResume, classify_resume_cause-ExplainsResume}
use whyslow.Causal.Env.{Env}
use whyslow.Causal.Device.{DevNames, IsFaithful, no_names}
use whyslow.Causal.Format.{format_wall_time, futex_text, headline, headline_unknown}
use whyslow.Causal.Walk.{io_text}
use whyslow.Causal.Ranking.{slowest_blocks, length-slowest_blocks}
use whyslow.Causal.Story.{Hop, Story, render, io_shown, io_text_lem, walk_from_futex_wait-Tells}
use whyslow.Causal.Shape.{length-Story}
use whyslow.Causal.Explain.{Chain, lines_of, explain_one_stall, explain_all, explain}

-- The hops that follow a headline: a story of its futex wait, and nothing behind another cause.
abbrev pub Follows : Typed → Cause → List Hop → Type 0
Follows t (futex wait) hops = Story t 1 wait hops
Follows t (block_io io) hops = hops ≡ []
Follows t unknown hops = hops ≡ []

module _ (env : Env) where
  abbrev pub headline_of : Text → TraceEvent → Cause → Text
  headline_of wall block (futex wait) =
      headline env wall block.tid block.duration_ns (futex_text env wait.key)
  headline_of wall block (block_io io) =
      headline env wall block.tid block.duration_ns (io_shown env io)
  headline_of wall block unknown = headline_unknown env wall block.tid block.duration_ns

  -- The wall time at which a stall began.
  abbrev pub began : TraceFile → TraceEvent → Text
  began trace block =
      format_wall_time env (wall_ns_for trace (block.timestamp_ns - block.duration_ns))

  -- The chain explains the stall: it names the cause that explains the thread's resume, and behind
  -- it the hops of a story of that cause.
  pub record Told (trace : TraceFile) (t : Typed) (block : TraceEvent) (chain : Chain)
      : Type 0 where
    pub cause : Cause
    pub hops : List Hop
    pub explains : ExplainsResume block.tid block.timestamp_ns t cause
    pub follows : Follows t cause hops
    pub written : chain.lines ≡ headline_of (began trace block) block cause ∷ map (render env) hops

  -- Each chain explains the stall in its place.
  abbrev pub AllTold : TraceFile → Typed → List TraceEvent → List Chain → Type 0
  AllTold trace t [] [] = Unit
  AllTold trace t (b ∷ bs) (c ∷ cs) = Told trace t b c × AllTold trace t bs cs
  AllTold trace t _ _ = ⊥

  lines_of-written :
      (wall : Text) (block : TraceEvent) (t : Typed) (names : DevNames) (cause : Cause)
      → IsFaithful env names
      → (hops : List Hop) × (names' : DevNames) × Follows t cause hops
        × (lines_of env wall block t names cause
            ≡ some (headline_of wall block cause ∷ map (render env) hops, names'))
        × IsFaithful env names'
  unfolding lines_of
  lines_of-written wall block t names (futex wait) h =
      walk_from_futex_wait-Tells env t max_chain_depth wait names 1 _ (omega arith) (omega arith) h
  lines_of-written wall block t names (block_io io) h =
      let (e, h') = io_text_lem env io names h in
      (
        [],
        _,
        refl,
        ap
            (λ (x : Text).
              some (headline env wall block.tid block.duration_ns x ∷ [], (io_text env io names).1))
            e,
        h',
      )
  lines_of-written wall block t names unknown h = ([], names, refl, refl, h)

  module _ (trace : TraceFile) (t : Typed) where
    explain_one_stall-Told :
        (block : TraceEvent) (names : DevNames)
        → IsFaithful env names
        → (chain : Chain) × (names' : DevNames) × (explain_one_stall env block trace t names
            ≡ some (chain, names'))
          × Told trace t block chain
          × IsFaithful env names'
    unfolding explain_one_stall
    explain_one_stall-Told block names h =
        let cause = classify_resume_cause block.tid block.timestamp_ns t in
        let (hops, names', f, e, h') = lines_of-written (began trace block) block t names cause h in
        (
          record { lines = headline_of (began trace block) block cause ∷ map (render env) hops },
          names',
          rw (e, explain_one_stall),
          record {
            cause = cause;
            hops = hops;
            explains = classify_resume_cause-ExplainsResume block.tid block.timestamp_ns t;
            follows = f;
            written = refl;
          },
          h',
        )

    explain_all-AllTold :
        (bs : List TraceEvent) (names : DevNames)
        → IsFaithful env names
        → (chains : List Chain) × (explain_all env bs trace t names ≡ some chains)
          × AllTold trace t bs chains
    unfolding explain_all
    explain_all-AllTold [] names h = ([], refl, tt)
    explain_all-AllTold (b ∷ bs) names h =
        let (chain, names', e, told, h') = explain_one_stall-Told b names h in
        let (chains, e', all) = explain_all-AllTold bs names' h' in
        (chain ∷ chains, rw (e, explain_all, e'), (told, all))

  -- `explain` always returns, and its chains explain the `slowest` longest stalls of the trace, one
  -- each and longest first: each names the cause that explains the resume, and behind a futex wait
  -- the hops of a story of that wait.
  pub explain-AllTold :
      (trace : TraceFile) (slowest : ℕ)
      → let t = partition trace.events in
        (chains : List Chain) × (explain env trace slowest ≡ some chains)
        × AllTold trace t (slowest_blocks slowest t.block) chains
  unfolding explain
  explain-AllTold trace slowest = explain_all-AllTold trace (partition trace.events) _ no_names tt

  -- No chain is longer than a headline and two lines for each hop but the last.
  abbrev pub IsShort : Chain → Type 0
  IsShort chain = (1 ≤ length chain.lines) × (length chain.lines ≤ 2 * max_chain_depth)

  length-Follows :
      (t : Typed) (cause : Cause) (hops : List Hop)
      → Follows t cause hops
      → length hops + 1 ≤ 2 * max_chain_depth
  length-Follows t (futex wait) hops f = omega (arith, length-Story t f (omega arith))
  length-Follows t (block_io io) hops f = rw f (omega arith)
  length-Follows t unknown hops f = rw f (omega arith)

  Told-IsShort :
      (trace : TraceFile) (t : Typed) {block : TraceEvent} {chain : Chain}
      → Told trace t block chain
      → IsShort chain
  Told-IsShort trace t told = rw told.written (
      omega (
        arith,
        length-map (render env) told.hops,
        length-Follows t told.cause told.hops told.follows,
      ))

  AllTold-size :
      (trace : TraceFile) (t : Typed) (bs : List TraceEvent) (cs : List Chain)
      → AllTold trace t bs cs
      → (length cs ≡ length bs) × All IsShort cs
  AllTold-size trace t [] [] all = (refl, tt)
  AllTold-size trace t (b ∷ bs) (c ∷ cs) all =
      let (e, short) = AllTold-size trace t bs cs all.1 in
      (ap suc e, (Told-IsShort trace t all.0, short))
  AllTold-size trace t [] (c ∷ cs) all = absurd all
  AllTold-size trace t (b ∷ bs) [] all = absurd all

  -- `explain` returns as many chains as there are blocked intervals, but at most `slowest`, and
  -- each has a headline and at most fifteen lines more.
  pub explain-size :
      (trace : TraceFile) (slowest : ℕ)
      → (chains : List Chain) × (explain env trace slowest ≡ some chains)
        × (length chains ≡ min slowest (length (partition trace.events).block))
        × All IsShort chains
  explain-size trace slowest =
      let t = partition trace.events in
      let (chains, e, all) = explain-AllTold trace slowest in
      let (n, short) = AllTold-size trace t (slowest_blocks slowest t.block) chains all in
      (chains, e, n ∙ length-slowest_blocks slowest t.block, short)
