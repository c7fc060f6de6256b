-- ===== src/Causal/Story.antt =====
-- whyslow-cli/src/causal.rs: an independent description of a causal chain, and the proof that
-- `walk_from_futex_wait` writes out exactly such a chain, never out of fuel.
use mathlib.Core.List.{append_assoc, append-nil}
use whyslow.Base.{
  ℕ, zero, suc, ◌+◌, ◌-◌, ◌≤◌, ◌<◌, ◌≡◌, refl, ap, ◌∙◌, inl, inr, Option, none, some, List, [], ◌∷◌,
  ◌++◌, map, arith, ◌==◌, leb, leb→le, Bool-cases, Option-cases, Elem, LastMaxOf,
}
use whyslow.Base.Text.{Text}
use whyslow.Event.Schema.{unpack_block_key}
use whyslow.Trace.Defs.{TraceEvent}
use whyslow.Causal.Nearest.{Typed, end_of, max_chain_depth}
use whyslow.Causal.Window.{InWindowBefore, nearest_preceding_iff, nearest_preceding-none_iff}
use whyslow.Causal.Classify.{Cause, futex, block_io, unknown}
use whyslow.Causal.Cause.{ExplainsPrior, classify_prior_cause-ExplainsPrior}
use whyslow.Causal.Env.{Env}
use whyslow.Causal.Device.{DevNames, IsFaithful, resolve, name-resolve}
use whyslow.Causal.Format.{futex_text, block_io_text, woken_line, blocked_line}
use whyslow.Causal.Walk.{waker, before_wake, io_text, continue_from, walk_from_futex_wait}

-- One line of a chain: who woke the thread, or what the waker itself had been blocked on.
pub data Hop : Type 0 where
  woken : (wake : TraceEvent) → Hop
  slept : (wake wait : TraceEvent) → Hop
  did_io : (wake io : TraceEvent) → Hop

-- A wake on the futex of `wait` that ends in the window before the end of `wait`.
abbrev pub MayWake : TraceEvent → TraceEvent → Type 0
MayWake wait = InWindowBefore wait.timestamp_ns (λ e. e.key == wait.key)

abbrev pub WokenBy : Typed → TraceEvent → TraceEvent → Type 0
WokenBy t wait wake = LastMaxOf (MayWake wait) end_of wake t.futex_wake

-- What the thread of `wake` did before it called `futex`.
abbrev pub BeforeWake : Typed → TraceEvent → Cause → Type 0
BeforeWake t wake = ExplainsPrior wake.tid (wake.timestamp_ns - wake.duration_ns) t

-- `Story t depth wait hops`: the hops explain the futex wait `wait`, the first being hop `depth`.
pub data Story (t : Typed) : ℕ → TraceEvent → List Hop → Type 0 where
  unexplained :
      {depth : ℕ} {wait : TraceEvent}
      → ((c : TraceEvent) → Elem c t.futex_wake → ¬ MayWake wait c)
      → Story t depth wait []
  cut :
      {depth : ℕ} {wait wake : TraceEvent}
      → WokenBy t wait wake
      → max_chain_depth ≤ depth
      → Story t depth wait (woken wake ∷ [])
  untraced :
      {depth : ℕ} {wait wake : TraceEvent}
      → WokenBy t wait wake
      → depth < max_chain_depth
      → BeforeWake t wake unknown
      → Story t depth wait (woken wake ∷ [])
  from_io :
      {depth : ℕ} {wait wake io : TraceEvent}
      → WokenBy t wait wake
      → depth < max_chain_depth
      → BeforeWake t wake (block_io io)
      → Story t depth wait (woken wake ∷ did_io wake io ∷ [])
  from_wait :
      {depth : ℕ} {wait wake next : TraceEvent} {hops : List Hop}
      → WokenBy t wait wake
      → depth < max_chain_depth
      → BeforeWake t wake (futex next)
      → Story t (depth + 1) next hops
      → Story t depth wait (woken wake ∷ slept wake next ∷ hops)

before_wake-BeforeWake : (t : Typed) (wake : TraceEvent) → BeforeWake t wake (before_wake t wake)
unfolding before_wake
before_wake-BeforeWake t wake = classify_prior_cause-ExplainsPrior wake.tid _ t

waker-WokenBy :
    (t : Typed) (wait wake : TraceEvent) → waker t wait ≡ some wake → WokenBy t wait wake
unfolding waker
waker-WokenBy t wait wake e =
    (nearest_preceding_iff wait.timestamp_ns (λ e. e.key == wait.key) t.futex_wake wake).0 e

waker-none :
    (t : Typed) (wait : TraceEvent)
    → waker t wait ≡ none
    → (c : TraceEvent) → Elem c t.futex_wake
    → ¬ MayWake wait c
unfolding waker
waker-none t wait e =
    (nearest_preceding-none_iff wait.timestamp_ns (λ e. e.key == wait.key) t.futex_wake).0 e

two_more :
    (lines : List Text) (a b : Text) (rest : List Text)
    → ((lines ++ a ∷ []) ++ b ∷ []) ++ rest ≡ lines ++ a ∷ b ∷ rest
two_more lines a b rest = simp append_assoc

module _ (env : Env) where
  -- A block I/O event as a line shows it, with the device's name from the system.
  abbrev pub io_shown : TraceEvent → Text
  io_shown io =
      block_io_text env (resolve env (unpack_block_key io.key).0) (unpack_block_key io.key).1

  abbrev pub render : Hop → Text
  render (woken wake) = woken_line env wake.tid
  render (slept wake wait) = blocked_line env wake.tid wait.duration_ns (futex_text env wait.key)
  render (did_io wake io) = blocked_line env wake.tid io.duration_ns (io_shown io)

  pub io_text_lem :
      (io : TraceEvent) (names : DevNames)
      → IsFaithful env names
      → ((io_text env io names).0 ≡ io_shown io) × IsFaithful env (io_text env io names).1
  unfolding io_text
  io_text_lem io names h =
      let (e, h') = name-resolve env names (unpack_block_key io.key).0 h in
      (ap (λ n. block_io_text env n (unpack_block_key io.key).1) e, h')

  module _ (t : Typed) where
    -- The result `r` of a walk: the lines of a story behind those given, and a faithful cache.
    abbrev pub Tells : ℕ → TraceEvent → List Text → Option (List Text × DevNames) → Type 0
    Tells depth wait lines r =
        (hops : List Hop) × (names : DevNames) × Story t depth wait hops
        × (r ≡ some (lines ++ map render hops, names))
        × IsFaithful env names

    continue_from-Tells :
        (go : TraceEvent → DevNames → ℕ → List Text → Option (List Text × DevNames))
        (wait wake : TraceEvent) (c : Cause) (names : DevNames) (depth : ℕ) (lines : List Text)
        → WokenBy t wait wake
        → depth < max_chain_depth
        → BeforeWake t wake c
        → IsFaithful env names
        → ((next : TraceEvent) (lines' : List Text)
            → Tells (depth + 1) next lines' (go next names (depth + 1) lines'))
        → Tells depth wait lines
            (continue_from env go wake c names depth (lines ++ woken_line env wake.tid ∷ []))
    unfolding continue_from
    continue_from-Tells go wait wake (futex next) names depth lines w d b h ih =
        let line = blocked_line env wake.tid next.duration_ns (futex_text env next.key) in
        let (hops, names', s, e, h') =
          ih next ((lines ++ woken_line env wake.tid ∷ []) ++ line ∷ []) in
        (
          woken wake ∷ slept wake next ∷ hops,
          names',
          from_wait w d b s,
          e
              ∙ ap (λ (x : List Text). some (x, names'))
                  (two_more lines (woken_line env wake.tid) line (map render hops)),
          h',
        )
    continue_from-Tells go wait wake (block_io io) names depth lines w d b h ih =
        let (e, h') = io_text_lem io names h in
        (woken wake ∷ did_io wake io ∷ [], _, from_io w d b, shown e, h')
      where
        shown :
            (io_text env io names).0 ≡ io_shown io
            → continue_from env go wake
                (block_io io)
                names
                depth
                (lines ++ woken_line env wake.tid ∷ [])
              ≡ some
                  (lines ++ map render (woken wake ∷ did_io wake io ∷ []), (io_text env io names).1)
        shown e =
            rw e (ap (λ (x : List Text). some (x, (io_text env io names).1)) (simp append_assoc))
    continue_from-Tells go wait wake unknown names depth lines w d b h ih =
        (woken wake ∷ [], names, untraced w d b, refl, h)

    -- With fuel for the rounds that are left below the depth limit, the walk returns; the lines
    -- that it adds are those of a chain that explains the wait, with the device names that the
    -- system gives.
    pub walk_from_futex_wait-Tells :
        (fuel : ℕ) (wait : TraceEvent) (names : DevNames) (depth : ℕ) (lines : List Text)
        → depth ≤ max_chain_depth
        → max_chain_depth < fuel + depth
        → IsFaithful env names
        → Tells depth wait lines (walk_from_futex_wait env fuel t wait names depth lines)
    unfolding walk_from_futex_wait
    walk_from_futex_wait-Tells zero wait names depth lines d f h = absurd (omega arith)
    walk_from_futex_wait-Tells (suc fuel) wait names depth lines d f h =
        elim (Option-cases (waker t wait)) [
          | inl e ↦ (
            [],
            names,
            unexplained (waker-none t wait e),
            rw (e, walk_from_futex_wait, append-nil lines),
            h,
          )
          | inr (wake, e) ↦
              let w = waker-WokenBy t wait wake e in
              elim (Bool-cases (leb max_chain_depth depth)) [
                | inl deep ↦ (
                  woken wake ∷ [],
                  names,
                  cut w (leb→le _ _ deep),
                  rw (e, walk_from_futex_wait, deep),
                  h,
                )
                | inr shallow ↦
                    let rest =
                      continue_from-Tells (walk_from_futex_wait env fuel t) wait wake
                        (before_wake t wake) names depth lines w (ground arith)
                        (before_wake-BeforeWake t wake) h
                        (λ next lines'.
                          walk_from_futex_wait-Tells fuel next names (depth + 1) lines'
                            (ground arith) (omega arith) h) in
                    rw (e, walk_from_futex_wait, shallow) rest
              ]
        ]
