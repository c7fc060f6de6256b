-- ===== src/Causal/Unique.antt =====
-- whyslow-cli/src/causal.rs: the descriptions of causes and chains leave no choice, so they
-- determine what `explain` prints.
use whyslow.Base.{
  ℕ, ◌+◌, ◌-◌, ◌≡◌, refl, sym, ap, ◌∙◌, subst, ◌↔◌, some, List, [], ◌∷◌, map, arith, Elem,
  LastMaxOf-Elem, FirstMinOf-Elem, LastMaxOf-unique, FirstMinOf-unique,
}
use mathlib.Core.Path.{ap₂}
use whyslow.Base.Text.{Text}
use whyslow.Trace.Defs.{TraceEvent, TraceFile}
use whyslow.Causal.Nearest.{Typed, partition}
use whyslow.Causal.Classify.{Cause, futex, block_io, unknown}
use whyslow.Causal.Cause.{ExplainsResume, ExplainsPrior}
use whyslow.Causal.Env.{Env}
use whyslow.Causal.Ranking.{slowest_blocks}
use whyslow.Causal.Story.{
  Hop, WokenBy, BeforeWake, Story, unexplained, cut, untraced, from_io, from_wait, render, MayWake,
}
use whyslow.Causal.Explain.{Chain, explain}
use whyslow.Causal.Report.{Follows, Told, AllTold, explain-AllTold, headline_of, began}

ExplainsPrior-unique :
    (tid at : ℕ) (t : Typed) (c d : Cause)
    → ExplainsPrior tid at t c
    → ExplainsPrior tid at t d
    → c ≡ d
ExplainsPrior-unique tid at t (futex f) (futex g) p q = ap futex (LastMaxOf-unique p.0 q.0)
ExplainsPrior-unique tid at t (block_io i) (block_io j) p q = ap block_io (LastMaxOf-unique p.0 q.0)
ExplainsPrior-unique tid at t unknown unknown p q = refl
ExplainsPrior-unique tid at t (futex f) (block_io i) p q =
    let (m, ok) = LastMaxOf-Elem p.0 in
    let (n, ok') = LastMaxOf-Elem q.0 in
    let before = p.1 i n ok' in let after = q.1 f m ok in absurd (omega arith)
ExplainsPrior-unique tid at t (block_io i) (futex f) p q =
    let (m, ok) = LastMaxOf-Elem q.0 in
    let (n, ok') = LastMaxOf-Elem p.0 in
    let before = q.1 i n ok' in let after = p.1 f m ok in absurd (omega arith)
ExplainsPrior-unique tid at t (futex f) unknown p q =
    let (m, ok) = LastMaxOf-Elem p.0 in absurd (q.0 f m ok)
ExplainsPrior-unique tid at t (block_io i) unknown p q =
    let (m, ok) = LastMaxOf-Elem p.0 in absurd (q.1 i m ok)
ExplainsPrior-unique tid at t unknown (futex f) p q =
    let (m, ok) = LastMaxOf-Elem q.0 in absurd (p.0 f m ok)
ExplainsPrior-unique tid at t unknown (block_io i) p q =
    let (m, ok) = LastMaxOf-Elem q.0 in absurd (p.1 i m ok)

ExplainsResume-unique :
    (tid at : ℕ) (t : Typed) (c d : Cause)
    → ExplainsResume tid at t c
    → ExplainsResume tid at t d
    → c ≡ d
ExplainsResume-unique tid at t (futex f) (futex g) p q = ap futex (FirstMinOf-unique p.0 q.0)
ExplainsResume-unique tid at t (block_io i) (block_io j) p q =
    ap block_io (LastMaxOf-unique p.0 q.0)
ExplainsResume-unique tid at t unknown unknown p q = refl
ExplainsResume-unique tid at t (futex f) (block_io i) p q =
    let (m, ok) = FirstMinOf-Elem p.0 in
    let (n, ok') = LastMaxOf-Elem q.0 in
    let near = p.1 i n ok' in let far = q.1 f m ok in absurd (omega arith)
ExplainsResume-unique tid at t (block_io i) (futex f) p q =
    let (m, ok) = FirstMinOf-Elem q.0 in
    let (n, ok') = LastMaxOf-Elem p.0 in
    let near = q.1 i n ok' in let far = p.1 f m ok in absurd (omega arith)
ExplainsResume-unique tid at t (futex f) unknown p q =
    let (m, ok) = FirstMinOf-Elem p.0 in absurd (q.0 f m ok)
ExplainsResume-unique tid at t (block_io i) unknown p q =
    let (m, ok) = LastMaxOf-Elem p.0 in absurd (q.1 i m ok)
ExplainsResume-unique tid at t unknown (futex f) p q =
    let (m, ok) = FirstMinOf-Elem q.0 in absurd (p.0 f m ok)
ExplainsResume-unique tid at t unknown (block_io i) p q =
    let (m, ok) = LastMaxOf-Elem q.0 in absurd (p.1 i m ok)

module _ (t : Typed) where
  same_wake : (wait v w : TraceEvent) → WokenBy t wait v → WokenBy t wait w → v ≡ w
  same_wake wait v w p q = LastMaxOf-unique p q

  same_cause :
      (wait v w : TraceEvent) (c d : Cause)
      → WokenBy t wait v
      → WokenBy t wait w
      → BeforeWake t v c
      → BeforeWake t w d
      → c ≡ d
  same_cause wait v w c d p q b b' =
      ExplainsPrior-unique v.tid (v.timestamp_ns - v.duration_ns) t c d b
        (subst (λ u. BeforeWake t u d) (sym (same_wake wait v w p q)) b')

  no_wake :
      (wait w : TraceEvent)
      → ((c : TraceEvent) → Elem c t.futex_wake → ¬ MayWake wait c)
      → WokenBy t wait w
      → ⊥
  no_wake wait w none_found p = let (m, ok) = LastMaxOf-Elem p in none_found w m ok

  -- A futex wait has one story.
  pub Story-unique :
      {depth : ℕ} {wait : TraceEvent} {hops hops' : List Hop}
      → Story t depth wait hops
      → Story t depth wait hops'
      → hops ≡ hops'
  Story-unique (unexplained p) (unexplained q) = refl
  Story-unique (unexplained {wait = x} p) (cut {wake = v} qw qd) = absurd (no_wake x v p qw)
  Story-unique (unexplained {wait = x} p) (untraced {wake = v} qw qd qb) = absurd (no_wake x v p qw)
  Story-unique (unexplained {wait = x} p) (from_io {wake = v} qw qd qb) = absurd (no_wake x v p qw)
  Story-unique (unexplained {wait = x} p) (from_wait {wake = v} qw qd qb qs) =
      absurd (no_wake x v p qw)
  Story-unique (cut {wait = x} {wake = v} pw pd) (unexplained q) = absurd (no_wake x v q pw)
  Story-unique (cut {wait = x} {wake = pv} pw pd) (cut {wake = qv} qw qd) =
      cc (same_wake x pv qv pw qw)
  Story-unique (cut pw pd) (untraced qw qd qb) = absurd (omega arith)
  Story-unique (cut pw pd) (from_io qw qd qb) = absurd (omega arith)
  Story-unique (cut pw pd) (from_wait qw qd qb qs) = absurd (omega arith)
  Story-unique (untraced {wait = x} {wake = v} pw pd pb) (unexplained q) = absurd (no_wake x v q pw)
  Story-unique (untraced pw pd pb) (cut qw qd) = absurd (omega arith)
  Story-unique (untraced {wait = x} {wake = pv} pw pd pb) (untraced {wake = qv} qw qd qb) =
      cc (same_wake x pv qv pw qw)
  Story-unique (untraced {wait = x} {wake = pv} pw pd pb) (from_io {wake = qv} {io = qi} qw qd qb) =
      absurd (cc (same_cause x pv qv unknown (block_io qi) pw qw pb qb))
  Story-unique (untraced {wait = x} {wake = pv} pw pd pb)
        (from_wait {wake = qv} {next = qn} {hops = qh} qw qd qb qs) =
      absurd (cc (same_cause x pv qv unknown (futex qn) pw qw pb qb))
  Story-unique (from_io {wait = x} {wake = v} pw pd pb) (unexplained q) = absurd (no_wake x v q pw)
  Story-unique (from_io pw pd pb) (cut qw qd) = absurd (omega arith)
  Story-unique (from_io {wait = x} {wake = pv} {io = pi} pw pd pb) (untraced {wake = qv} qw qd qb) =
      absurd (cc (same_cause x pv qv (block_io pi) unknown pw qw pb qb))
  Story-unique (from_io {wait = x} {wake = pv} {io = pi} pw pd pb)
        (from_io {wake = qv} {io = qi} qw qd qb) =
      cc (same_wake x pv qv pw qw, same_cause x pv qv (block_io pi) (block_io qi) pw qw pb qb)
  Story-unique (from_io {wait = x} {wake = pv} {io = pi} pw pd pb)
        (from_wait {wake = qv} {next = qn} {hops = qh} qw qd qb qs) =
      absurd (cc (same_cause x pv qv (block_io pi) (futex qn) pw qw pb qb))
  Story-unique (from_wait {wait = x} {wake = v} pw pd pb ps) (unexplained q) =
      absurd (no_wake x v q pw)
  Story-unique (from_wait pw pd pb ps) (cut qw qd) = absurd (omega arith)
  Story-unique (from_wait {wait = x} {wake = pv} {next = pn} {hops = ph} pw pd pb ps)
        (untraced {wake = qv} qw qd qb) =
      absurd (cc (same_cause x pv qv (futex pn) unknown pw qw pb qb))
  Story-unique (from_wait {wait = x} {wake = pv} {next = pn} {hops = ph} pw pd pb ps)
        (from_io {wake = qv} {io = qi} qw qd qb) =
      absurd (cc (same_cause x pv qv (futex pn) (block_io qi) pw qw pb qb))
  Story-unique (from_wait {depth = k} {wait = x} {wake = pv} {next = pn} {hops = ph} pw pd pb ps)
        (from_wait {wake = qv} {next = qn} {hops = qh} qw qd qb qs) =
      let e : pn ≡ qn = cc (same_cause x pv qv (futex pn) (futex qn) pw qw pb qb) in
      cc
        (same_wake x pv qv pw qw, e, Story-unique ps (subst (λ n. Story t (k + 1) n qh) (sym e) qs))

  Follows-unique :
      (c : Cause) (hops hops' : List Hop) → Follows t c hops → Follows t c hops' → hops ≡ hops'
  Follows-unique (futex wait) hops hops' p q = Story-unique p q
  Follows-unique (block_io io) hops hops' p q = p ∙ sym q
  Follows-unique unknown hops hops' p q = p ∙ sym q

module _ (env : Env) (trace : TraceFile) (t : Typed) where
  Told-unique :
      (block : TraceEvent) (c d : Chain)
      → Told env trace t block c
      → Told env trace t block d
      → c ≡ d
  Told-unique block c d p q =
      let cause =
        ExplainsResume-unique block.tid block.timestamp_ns t p.cause q.cause p.explains
          q.explains in
      let hops =
        Follows-unique t p.cause p.hops q.hops p.follows
          (subst (λ x. Follows t x q.hops) (sym cause) q.follows) in
      ap chain_of (p.written ∙ ap₂ written_as cause hops ∙ sym q.written)
    where
      chain_of : List Text → Chain
      chain_of lines = record { lines = lines }

      written_as : Cause → List Hop → List Text
      written_as x hs = headline_of env (began env trace block) block x ∷ map (render env) hs

  AllTold-unique :
      (bs : List TraceEvent) (cs ds : List Chain)
      → AllTold env trace t bs cs
      → AllTold env trace t bs ds
      → cs ≡ ds
  AllTold-unique [] [] [] p q = refl
  AllTold-unique (b ∷ bs) (c ∷ cs) (d ∷ ds) p q =
      cc (Told-unique b c d p.0 q.0, AllTold-unique bs cs ds p.1 q.1)
  AllTold-unique [] (c ∷ cs) ds p q = absurd p
  AllTold-unique [] [] (d ∷ ds) p q = absurd q
  AllTold-unique (b ∷ bs) [] ds p q = absurd p
  AllTold-unique (b ∷ bs) (c ∷ cs) [] p q = absurd q

-- `explain` returns the given chains exactly when they explain the `slowest` longest stalls in
-- order: each with the cause that explains the thread's resume and, behind a futex wait, the hops
-- of its story. So the description leaves no choice, and the code never fails to meet it.
pub explain_iff_AllTold :
    (env : Env) (trace : TraceFile) (slowest : ℕ) (chains : List Chain)
    → (explain env trace slowest ≡ some chains)
      ↔ AllTold env trace
          (partition trace.events)
          (slowest_blocks slowest (partition trace.events).block)
          chains
explain_iff_AllTold env trace slowest chains =
    let t = partition trace.events in
    let (found, e, told) = explain-AllTold env trace slowest in
    let bs = slowest_blocks slowest t.block in
    (
      λ r. let same : found ≡ chains = cc (e, r) in subst (AllTold env trace t bs) same told,
      λ all. e ∙ ap some (AllTold-unique env trace t bs found chains told all),
    )
