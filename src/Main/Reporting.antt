-- ===== src/Main/Reporting.antt =====
-- whyslow-cli/src/main.rs: what the end of a command says of its trace, for each part that commands are made of.
use whyslow.Base.{
  ◌⊎◌, if◌then◌else◌, Elem, ◌≢◌, ℕ, ◌≡◌, refl, ap, subst, length, take, ltb, Option, none, some,
  List, [], ◌∷◌, ◌++◌, arith, Bool, true, false,
}
use whyslow.Base.Text.{Text}
use whyslow.Base.Result.{ok, err, Anyhow}
use whyslow.Trace.Defs.{TraceFile}
use whyslow.Trace.Disk.{write_to}
use whyslow.Causal.Explain.{Chain, explain, print_chains}
use whyslow.Main.Effects.{
  failed_with, Effect, printed, wrote, Out, did, panics, cut_or, prints, TakesAll, on_ok, World,
}
use whyslow.Main.Printing.{Panics}
use whyslow.Main.Order.{Happens, did-Happens}
use whyslow.Main.Commands.{on_deadline}

abbrev writes : Effect → Bool
writes (wrote path t) = true
writes _ = false

module _ (w : World) (trace_out : Text) (slowest : ℕ) where
  silent-other : (e : Effect) (t : TraceFile) → writes e ≡ false → wrote trace_out t ≢ e
  silent-other e t silent same = let yes : true ≡ writes e = ap writes same in absurd (ground arith)

  -- The last that is done is writing a trace, a blank line and the chains of that trace.
  abbrev pub Reported : Out → Type 0
  Reported out =
      (t : TraceFile) × (chains : List Chain) × (before : List Effect) × ((write_to w.serde w.disk t
          trace_out w.files).1
        ≡ ok tt)
      × (explain w.env t slowest ≡ some chains)
      × (out.effects
          ≡ before
            ++ wrote trace_out t ∷ printed ([] ∷ []) ∷ printed (print_chains w.env chains) ∷ [])

  -- So it is where there is no error; and wherever a trace is written there is none, or else there is a
  -- panic, since the standard output did not take a line.
  abbrev pub Reports : Out → Type 0
  Reports out =
      (out.result ≡ some (ok tt) → Reported out)
      × ((t : TraceFile)
          → Happens (wrote trace_out t) out
          → (out.result ≡ some (ok tt)) ⊎ (Panics out × ¬ TakesAll w))

  pub neither : (out : Out) → out.result ≢ some (ok tt) → out.effects ≡ [] → Reports out
  neither out failed nothing =
      (λ fine. absurd (failed fine), λ t h. absurd (subst (Elem (wrote trace_out t)) nothing h))

  pub did-Reports : (e : Effect) (out : Out) → writes e ≡ false → Reports out → Reports (did e out)
  did-Reports e out silent reports = (
    λ fine.
        let (t, chains, before, writes, explained, same) = reports.0 fine in
        (t, chains, e ∷ before, writes, explained, ap (◌∷◌ e) same),
    λ t h. reports.1 t (did-Happens (wrote trace_out t) e out (silent-other e t silent) h),
  )

  pub if-Reports : (b : Bool) (x y : Out) → Reports x → Reports y → Reports (if b then x else y)
  if-Reports true x y this that = this
  if-Reports false x y this that = that

  cut_or-Reports :
      (cut : Bool) (first lines : List Text) (out : Out)
      → Reports out
      → Reports (cut_or cut first lines out)
  cut_or-Reports true first lines out reports =
      did-Reports (printed first) panics refl (neither panics (λ fine. ground arith) refl)
  cut_or-Reports false first lines out reports = did-Reports (printed lines) out refl reports

  pub prints-Reports :
      (stdout : Option ℕ) (lines : List Text) (out : Out)
      → Reports out
      → Reports (prints stdout lines out)
  prints-Reports none lines out reports = cut_or-Reports false [] lines out reports
  prints-Reports (some n) lines out reports =
      cut_or-Reports (ltb n (length lines)) (take n lines) lines out reports

  pub on_ok-Reports :
      {A : Type 0} (r : Anyhow A) (next : A → Out)
      → ((a : A) → Reports (next a))
      → Reports (on_ok r next)
  on_ok-Reports (ok a) next reports = reports a
  on_ok-Reports (err why) next reports = neither (failed_with why) (λ fine. ground arith) refl

  pub on_deadline-Reports :
      (deadline : Option (Option ℕ)) (next : Option ℕ → Out)
      → ((at : Option ℕ) → Reports (next at))
      → Reports (on_deadline deadline next)
  on_deadline-Reports none next reports = neither panics (λ fine. ground arith) refl
  on_deadline-Reports (some at) next reports = reports at
