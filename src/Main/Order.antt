-- ===== src/Main/Order.antt =====
-- whyslow-cli/src/main.rs: what `run` has done when it resumes the child.
use whyslow.Base.{
  ℕ, ◌≡◌, ◌≢◌, refl, ◌∙◌, ap, inl, inr, Bool, true, false, Option, none, some, List, [], ◌∷◌, arith,
  Elem, length, take, ltb,
}
use whyslow.Base.Text.{Text, codes}
use whyslow.Base.Result.{ok, err, Anyhow, context}
use whyslow.Trace.Defs.{capture_anchor}
use whyslow.Ebpf.Probes.{Probes}
use whyslow.Bpf.Load.{load_and_attach, load_and_attach-ok_iff, tracepoints}
use whyslow.Bpf.Target.{set_target_tgid, set_target_tgid-target}
use whyslow.Child.{IsTraced, spawn_stopped-ok, resume, wait_until_stopped, spawn_stopped}
use whyslow.Main.Effects.{
  Effect, printed, spawned, attached, target_set, clocks_read, resumed, Out, did, on_ok, World,
  banner_site, start_site, prints, cut_or,
}
use whyslow.Ui.Paint.{banner}
use whyslow.Main.Commands.{
  tracing_line, require_root, run, run_stopped, run_spawned, run_child, trace_target,
}

-- The effect is among those of the command.
abbrev pub Happens : Effect → Out → Type 0
Happens e out = Elem e out.effects

on_ok-Happens :
    {A : Type 0} (e : Effect) (r : Anyhow A) (next : A → Out)
    → Happens e (on_ok r next)
    → (a : A) × (r ≡ ok a) × Happens e (next a)
on_ok-Happens e (ok a) next h = (a, refl, h)
on_ok-Happens e (err why) next h = absurd h

pub did-Happens : (e d : Effect) (out : Out) → e ≢ d → Happens e (did d out) → Happens e out
did-Happens e d out ne (inl same) = absurd (ne same)
did-Happens e d out ne (inr h) = h

cut_or-Happens :
    (p : ℕ) (cut : Bool) (first lines : List Text) (out : Out)
    → Happens (resumed p) (cut_or cut first lines out)
    → Happens (resumed p) out × (cut_or cut first lines out ≡ did (printed lines) out)
cut_or-Happens p true first lines out (inl same) = absurd (ground arith)
cut_or-Happens p true first lines out (inr h) = absurd h
cut_or-Happens p false first lines out h =
    (did-Happens (resumed p) (printed lines) out (λ q. ground arith) h, refl)

-- A child that is resumed after printing shows that all was printed.
prints-Happens :
    (p : ℕ) (stdout : Option ℕ) (lines : List Text) (out : Out)
    → Happens (resumed p) (prints stdout lines out)
    → Happens (resumed p) out × (prints stdout lines out ≡ did (printed lines) out)
prints-Happens p none lines out h = cut_or-Happens p false [] lines out h
prints-Happens p (some n) lines out h =
    cut_or-Happens p (ltb n (length lines)) (take n lines) lines out h

-- What has been done once the child `pid` runs, before `rest`.
abbrev pub Prepared : ℕ → Out → Type 0
Prepared pid out =
    (head tracing : List Text) × (anchor : ℕ × ℕ) × (rest : List Effect) × (out.effects
      ≡ printed head
        ∷ printed tracing
        ∷ spawned pid
        ∷ attached tracepoints
        ∷ target_set (some pid)
        ∷ clocks_read anchor
        ∷ resumed pid
        ∷ rest)

module _ (w : World) (trace_out : Text) (slowest : ℕ) where
  abbrev anchor_of : ℕ × ℕ
  anchor_of = capture_anchor w.realtime w.monotonic

  run_child-resumed :
      (p pid : ℕ) (s : Probes w.maps)
      → Happens (resumed p) (run_child w pid trace_out slowest s)
      → (rest : List Effect) × ((run_child w pid trace_out slowest s).effects
          ≡ clocks_read anchor_of ∷ resumed pid ∷ rest)
  unfolding run_child
  run_child-resumed p pid s (inl same) = absurd (ground arith)
  run_child-resumed p pid s (inr h) =
      let (_, fine, _) =
        on_ok-Happens (resumed p)
          (context (codes "resuming child after attaching BPF") (resume pid w.detach)) _ h in
      rw (fine, run_child) (_, refl)

  trace_target-resumed :
      (p pid : ℕ) (rest : Probes w.maps → Out)
      → Happens (resumed p) (trace_target w pid rest)
      → (s : Probes w.maps) × Happens (resumed p) (rest s)
        × ((trace_target w pid rest).effects
            ≡ attached tracepoints ∷ target_set (some pid) ∷ (rest s).effects)
  unfolding trace_target
  trace_target-resumed p pid rest (inl e) = absurd (ground arith)
  trace_target-resumed p pid rest (inr h) =
      let (_, loads, h') = on_ok-Happens (resumed p) (load_and_attach w.bpf).1 _ h in
      let set = set_target_tgid w.maps w.target_map w.set_answer pid w.probes in
      let (_, sets, h'') = on_ok-Happens (resumed p) set.1 _ h' in
      (
        set.0,
        did-Happens (resumed p) (target_set set.0.target) (rest set.0) (λ q. ground arith) h'',
        rw (loads, sets)
            (ap (λ ts. attached ts ∷ target_set set.0.target ∷ (rest set.0).effects)
                ((load_and_attach-ok_iff w.bpf).1 loads)
              ∙ ap (λ slot. attached tracepoints ∷ target_set slot ∷ (rest set.0).effects)
                  (set_target_tgid-target w.maps w.target_map w.set_answer pid w.probes sets)),
      )

  run_stopped-resumed :
      (p pid : ℕ) (waits : Option (Anyhow Unit))
      → Happens (resumed p) (run_stopped w pid trace_out slowest waits)
      → (rest : List Effect) × ((run_stopped w pid trace_out slowest waits).effects
          ≡ attached tracepoints
            ∷ target_set (some pid)
            ∷ clocks_read anchor_of
            ∷ resumed pid
            ∷ rest)
  unfolding run_stopped
  run_stopped-resumed p pid none h = absurd h
  run_stopped-resumed p pid (some waited) h =
      let (_, ends, h') =
        on_ok-Happens (resumed p)
          (context (codes "waiting for child to reach pre-exec stop point") waited) _ h in
      let (s, h'', traced) = trace_target-resumed p pid (run_child w pid trace_out slowest) h' in
      let (rest, goes) = run_child-resumed p pid s h'' in
      (rest, rw ends (traced ∙ ap (λ es. attached tracepoints ∷ target_set (some pid) ∷ es) goes))

  run_spawned-resumed :
      (p pid : ℕ)
      → Happens (resumed p) (run_spawned w pid trace_out slowest)
      → (rest : List Effect) × ((run_spawned w pid trace_out slowest).effects
          ≡ spawned pid
            ∷ attached tracepoints
            ∷ target_set (some pid)
            ∷ clocks_read anchor_of
            ∷ resumed pid
            ∷ rest)
  unfolding run_spawned
  run_spawned-resumed p pid (inl same) = absurd (ground arith)
  run_spawned-resumed p pid (inr h) =
      let (rest, goes) = run_stopped-resumed p pid (wait_until_stopped pid w.waits) h in
      (rest, ap (λ es. spawned pid ∷ es) goes)

  -- If the effect of resuming a child is among those of `run`, then before it `run` has, in this order,
  -- printed two texts, spawned the child, traced from before it executes the program, attached exactly
  -- the five programs, each to its tracepoint, left the target's slot holding the child, and read the
  -- clocks.
  pub run-resumed :
      (command : List Text) (p : ℕ)
      → Happens (resumed p) (run w command trace_out slowest)
      → (pid : ℕ) × IsTraced w.child pid × Prepared pid (run w command trace_out slowest)
  unfolding run
  run-resumed command p h =
      let (_, root, h') = on_ok-Happens (resumed p) (require_root w.euid) _ h in
      let line = tracing_line w command in
      let spawning : Out =
        on_ok (spawn_stopped command w.child) (λ pid. run_spawned w pid trace_out slowest) in
      let (h'', begins) =
        prints-Happens p (w.stdout banner_site) (banner w.env.terminal)
          (prints (w.stdout start_site) line spawning) h' in
      let (h''', starts) = prints-Happens p (w.stdout start_site) line spawning h'' in
      let (pid, spawns, last) = on_ok-Happens (resumed p) (spawn_stopped command w.child) _ h''' in
      let (rest, goes) = run_spawned-resumed p pid last in
      let after_spawn : spawning ≡ run_spawned w pid trace_out slowest =
        ap (λ r. on_ok r (λ pid. run_spawned w pid trace_out slowest)) spawns in
      (
        pid,
        spawn_stopped-ok command w.child pid spawns,
        (
          banner w.env.terminal,
          line,
          anchor_of,
          rest,
          rw root (
              ap (λ out. out.effects)
                (begins
                  ∙ ap (did (printed (banner w.env.terminal)))
                      (starts ∙ ap (did (printed line)) after_spawn))
              ∙ ap (λ es. printed (banner w.env.terminal) ∷ printed line ∷ es) goes),
        ),
      )
