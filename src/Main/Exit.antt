-- ===== src/Main/Exit.antt =====
-- whyslow-cli/src/main.rs: what the exit code says of the trace file.
use whyslow.Base.{
  ◌⊎◌, ℕ, ◌≡◌, refl, ap, ◌∙◌, subst, sym, Option, none, arith, ◌↔◌, inl, inr, some, List, [], ◌∷◌,
  ◌++◌, Elem,
}
use whyslow.Base.Text.{Text}
use whyslow.Trace.Defs.{TraceFile}
use whyslow.Main.Effects.{Effect, wrote, World, TakesAll}
use whyslow.Main.Order.{Happens}
use whyslow.Main.Cli.{
  Command, explain_command, Args, run_args, attach_args, explain_args, filled, try_main, main,
  main-code, main-panics,
}
use whyslow.Main.Reports.{saves_to, try_main-Reports}

Elem-append : (e : Effect) (before later : List Effect) → Elem e (before ++ e ∷ later)
Elem-append e [] later = inl refl
Elem-append e (x ∷ before) later = inr (Elem-append e before later)

-- Where the standard output takes every line, the exit code of a command that traces is 0 exactly if it
-- wrote a trace to the path that it was given.
pub main-code_iff :
    (w : World) (command : Command) (trace_out : Text) (slowest : ℕ)
    → TakesAll w
    → saves_to command ≡ some (trace_out, slowest)
    → ((main w command).code ≡ some 0)
      ↔ ((t : TraceFile) × Happens (wrote trace_out t) (try_main w command))
main-code_iff w command trace_out slowest takes saves =
    let reports = try_main-Reports w command trace_out slowest saves in
    (
      λ zero.
          let (t, chains, before, _, _, same) = reports.0 ((main-code w command).0 zero) in
          (
            t,
            subst (Elem (wrote trace_out t)) (sym same) (Elem-append (wrote trace_out t) before _),
          ),
      λ (t, h). elim (reports.1 t h) [
        | inl fine ↦ (main-code w command).1 fine
        | inr (panics, cut) ↦ absurd (cut takes)
      ],
    )

-- Once a command that traces has written a trace to the path that it was given, its exit code is 0, or it
-- is 101 and the standard output did not take every line.
pub main-code_once_written :
    (w : World) (command : Command) (trace_out : Text) (slowest : ℕ) (t : TraceFile)
    → saves_to command ≡ some (trace_out, slowest)
    → Happens (wrote trace_out t) (try_main w command)
    → ((main w command).code ≡ some 0) ⊎ (((main w command).code ≡ some 101) × ¬ TakesAll w)
main-code_once_written w command trace_out slowest t saves h =
    elim ((try_main-Reports w command trace_out slowest saves).1 t h) [
      | inl fine ↦ inl ((main-code w command).1 fine)
      | inr (panics, cut) ↦ inr (main-panics w command panics, cut)
    ]

-- `explain` with the same options, given or left out, as a command that traces.
abbrev pub explain_of : Args → Args
explain_of (run_args trace_out slowest command) = explain_args slowest trace_out
explain_of (attach_args pid trace_out slowest duration_secs) = explain_args slowest trace_out
explain_of (explain_args slowest trace) = explain_args slowest trace

saving : Option Command → Option (Text × ℕ)
saving none = none
saving (some command) = saves_to command

reading : Option (Text × ℕ) → Option Command
reading none = none
reading (some (trace_out, slowest)) = some (explain_command slowest trace_out)

-- It reads the file that the command writes, and prints as many chains.
pub filled-explain_of :
    (args : Args) (command : Command) (trace_out : Text) (slowest : ℕ)
    → filled args ≡ some command
    → saves_to command ≡ some (trace_out, slowest)
    → filled (explain_of args) ≡ some (explain_command slowest trace_out)
unfolding filled saving reading
filled-explain_of (run_args out n []) command trace_out slowest e saves = absurd (ground arith)
filled-explain_of (run_args out n (c ∷ cs)) command trace_out slowest e saves =
    ap reading (ap saving e ∙ saves)
filled-explain_of (attach_args pid out n secs) command trace_out slowest e saves =
    ap reading (ap saving e ∙ saves)
filled-explain_of (explain_args n trace) command trace_out slowest e saves =
    let never = ap saving e ∙ saves in absurd (ground arith)
