-- ===== src/Causal/Shape.antt =====
-- whyslow-cli/src/causal.rs: what every chain looks like, from its description in `Story`.
use whyslow.Base.{
  ℕ, ◌+◌, ◌-◌, ◌*◌, ◌≤◌, ◌<◌, ◌≡◌, refl, some, List, [], ◌∷◌, ◌++◌, map, arith, ==→eq, length, Elem,
  LastMaxOf-Elem,
}
use whyslow.Trace.Defs.{TraceEvent}
use whyslow.Causal.Nearest.{Typed, max_chain_depth, match_window_ns}
use whyslow.Causal.Classify.{futex, block_io}
use whyslow.Causal.Story.{
  Hop, woken, slept, did_io, WokenBy, BeforeWake, Story, unexplained, cut, untraced, from_io,
  from_wait, render, walk_from_futex_wait-Tells,
}
use whyslow.Causal.Env.{Env}
use whyslow.Causal.Device.{DevNames, IsFaithful}
use whyslow.Causal.Walk.{walk_from_futex_wait}
use whyslow.Base.Text.{Text}

-- `wake` is a recorded wake of the futex that `wait` waited on, complete when `wait` returned and
-- at most the window before.
pub record Wakes (t : Typed) (wake wait : TraceEvent) : Type 0 where
  pub recorded : Elem wake t.futex_wake
  pub same_futex : wake.key ≡ wait.key
  pub in_time : wake.timestamp_ns ≤ wait.timestamp_ns
  pub in_window : wait.timestamp_ns ≤ wake.timestamp_ns + match_window_ns

-- `e` is an event of the waker, complete when its call that woke began and at most the window
-- before.
pub record Delays (e wake : TraceEvent) : Type 0 where
  pub same_thread : e.tid ≡ wake.tid
  pub done : e.timestamp_ns ≤ wake.timestamp_ns - wake.duration_ns
  pub in_window : wake.timestamp_ns - wake.duration_ns ≤ e.timestamp_ns + match_window_ns

-- Each hop follows from the one before it.
abbrev pub Links : Typed → TraceEvent → List Hop → Type 0
Links t wait [] = Unit
Links t wait (woken wake ∷ []) = Wakes t wake wait
Links t wait (woken wake ∷ slept w next ∷ hops) =
    Wakes t wake wait × (w ≡ wake) × Elem next t.futex_wait × Delays next wake × Links t next hops
Links t wait (woken wake ∷ did_io w io ∷ []) =
    Wakes t wake wait × (w ≡ wake) × Elem io t.block_io × Delays io wake
Links t wait _ = ⊥

WokenBy-Wakes : (t : Typed) (wait wake : TraceEvent) → WokenBy t wait wake → Wakes t wake wait
WokenBy-Wakes t wait wake w =
    let (m, ok) = LastMaxOf-Elem w in
    record {
      recorded = m;
      same_futex = ==→eq _ _ ok.holds;
      in_time = ok.not_after;
      in_window = ok.in_window;
    }

BeforeWake-wait :
    (t : Typed) (wake next : TraceEvent)
    → BeforeWake t wake (futex next)
    → Elem next t.futex_wait × Delays next wake
BeforeWake-wait t wake next b =
    let (m, ok) = LastMaxOf-Elem b.0 in
    (m, record { same_thread = ==→eq _ _ ok.holds; done = ok.not_after; in_window = ok.in_window })

BeforeWake-io :
    (t : Typed) (wake io : TraceEvent)
    → BeforeWake t wake (block_io io)
    → Elem io t.block_io × Delays io wake
BeforeWake-io t wake io b =
    let (m, ok) = LastMaxOf-Elem b.0 in
    (m, record { same_thread = ==→eq _ _ ok.holds; done = ok.not_after; in_window = ok.in_window })

-- Every chain is linked: each wake is a recorded wake of the futex that was waited on, in the window
-- before that wait returned; each further wait or I/O is a recorded event of that waker, complete
-- when its wake began and at most the window before; and I/O ends the chain.
pub Story-Links :
    (t : Typed) {depth : ℕ} {wait : TraceEvent} {hops : List Hop}
    → Story t depth wait hops
    → Links t wait hops
Story-Links t (unexplained none_found) = tt
Story-Links t (cut w d) = WokenBy-Wakes t _ _ w
Story-Links t (untraced w d b) = WokenBy-Wakes t _ _ w
Story-Links t (from_io w d b) =
    let (m, del) = BeforeWake-io t _ _ b in (WokenBy-Wakes t _ _ w, refl, m, del)
Story-Links t (from_wait w d b s) =
    let (m, del) = BeforeWake-wait t _ _ b in (WokenBy-Wakes t _ _ w, refl, m, del, Story-Links t s)

-- A chain that begins at hop `depth` has at most two lines for each hop below the limit, and one.
pub length-Story :
    (t : Typed) {depth : ℕ} {wait : TraceEvent} {hops : List Hop}
    → Story t depth wait hops
    → depth ≤ max_chain_depth
    → length hops + 2 * depth ≤ 2 * max_chain_depth + 1
length-Story t (unexplained none_found) h = omega arith
length-Story t (cut w d) h = omega arith
length-Story t (untraced w d b) h = omega arith
length-Story t (from_io w d b) h = omega arith
length-Story t (from_wait w d b s) h = omega (arith, length-Story t s (omega arith))

-- A walk with enough fuel adds lines for hops that are linked, each to the one before it: each wake
-- is a recorded wake of the futex that was waited on, in the window before that wait returned; each
-- further wait or I/O is a recorded event of that waker, complete when its wake began and at most
-- the window before; I/O ends the chain. There are at most two lines for each hop below the limit,
-- and one.
pub walk_from_futex_wait-Links :
    (env : Env) (t : Typed) (fuel : ℕ) (wait : TraceEvent) (names : DevNames) (depth : ℕ)
    (lines : List Text)
    → depth ≤ max_chain_depth
    → max_chain_depth < fuel + depth
    → IsFaithful env names
    → (hops : List Hop) × (names' : DevNames) × (walk_from_futex_wait env fuel t wait names depth
          lines
        ≡ some (lines ++ map (render env) hops, names'))
      × Links t wait hops
      × (length hops + 2 * depth ≤ 2 * max_chain_depth + 1)
walk_from_futex_wait-Links env t fuel wait names depth lines d f h =
    let (hops, names', s, e, h') =
      walk_from_futex_wait-Tells env t fuel wait names depth lines d f h in
    (hops, names', e, Story-Links t s, length-Story t s d)
