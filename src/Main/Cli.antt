-- ===== src/Main/Cli.antt =====
-- whyslow-cli/src/main.rs: the command line's commands, `try_main`, and what `main` reports.
use whyslow.Base.{ℕ, ◌≡◌, refl, ap, ◌↔◌, arith, Option, none, some, List, [], ◌∷◌, ◌++◌, map}
use whyslow.Base.Text.{Text, codes}
use whyslow.Base.Result.{Result, ok, err, Error}
use whyslow.Ui.Paint.{Terminal, bold_red, dim}
use whyslow.Main.Effects.{Effect, Fault, failed, panicked, Out, World}
use whyslow.Main.Commands.{run, attach, explain_cmd}

-- A command, with a value for each argument.
pub data Command : Type 0 where
  run_command : (trace_out : Text) (slowest : ℕ) (command : List Text) → Command
  attach_command : (pid : ℕ) (trace_out : Text) (slowest : ℕ) (duration_secs : Option ℕ) → Command
  explain_command : (slowest : ℕ) (trace : Text) → Command

-- The arguments as they are given; options may be left out.
pub data Args : Type 0 where
  run_args : (trace_out : Option Text) (slowest : Option ℕ) (command : List Text) → Args
  attach_args : (pid : ℕ) (trace_out : Option Text) (slowest duration_secs : Option ℕ) → Args
  explain_args : (slowest : Option ℕ) (trace : Option Text) → Args

abbrev pub default_trace : Option Text → Text
default_trace none = codes "whyslow.trace.json"
default_trace (some path) = path

abbrev pub default_slowest : Option ℕ → ℕ
default_slowest none = 3
default_slowest (some n) = n

-- The defaults; `none` where an argument that is required is missing.
unfoldable pub filled : Args → Option Command
filled (run_args trace_out slowest []) = none
filled (run_args trace_out slowest (program ∷ arguments)) =
    some (run_command (default_trace trace_out) (default_slowest slowest) (program ∷ arguments))
filled (attach_args pid trace_out slowest duration_secs) =
    some (attach_command pid (default_trace trace_out) (default_slowest slowest) duration_secs)
filled (explain_args slowest trace) =
    some (explain_command (default_slowest slowest) (default_trace trace))

unfoldable pub try_main : World → Command → Out
try_main w (run_command trace_out slowest command) = run w command trace_out slowest
try_main w (attach_command pid trace_out slowest duration_secs) =
    attach w pid trace_out slowest duration_secs
try_main w (explain_command slowest trace) = explain_cmd w trace slowest

-- The lines on the standard error: the message, and a line for each cause.
unfoldable pub error_lines : Terminal → Error → List Text
error_lines t [] = []
error_lines t (message ∷ causes) =
    (bold_red t (codes "error:") ++ b' ' ∷ message)
    ∷ map (λ cause. codes "  " ++ dim t (codes "caused by:") ++ b' ' ∷ cause) causes

-- What the process has done when it ends, and its exit code; `none` where it runs still.
pub record Ended : Type 0 where
  pub effects : List Effect
  pub stderr : List Text
  pub code : Option ℕ

-- The message of a panic is left out.
report : Terminal → Option (Result Unit Fault) → List Text × Option ℕ
report t none = ([], none)
report t (some (ok _)) = ([], some 0)
report t (some (err (failed why))) = (error_lines t why, some 1)
report t (some (err panicked)) = ([], some 101)

unfoldable pub main : World → Command → Ended
unfolding report
main w command =
    let out = try_main w command in
    let reported = report w.env.terminal out.result in
    record { effects = out.effects; stderr = reported.0; code = reported.1 }

report-code :
    (t : Terminal) (r : Option (Result Unit Fault)) → (report t r).1 ≡ some 0 → r ≡ some (ok tt)
unfolding report
report-code t none e = absurd (ground arith)
report-code t (some (ok _)) e = refl
report-code t (some (err (failed why))) e = absurd (ground arith)
report-code t (some (err panicked)) e = absurd (ground arith)

-- The exit code is 0 exactly if the command returned without an error.
pub main-code :
    (w : World) (command : Command)
    → ((main w command).code ≡ some 0) ↔ ((try_main w command).result ≡ some (ok tt))
unfolding main report
main-code w command = (
  report-code w.env.terminal (try_main w command).result,
  λ fine. ap (λ r. (report w.env.terminal r).1) fine,
)

-- A panic of the command is an exit code of its own.
pub main-panics :
    (w : World) (command : Command)
    → (try_main w command).result ≡ some (err panicked)
    → (main w command).code ≡ some 101
unfolding main report
main-panics w command panics = ap (λ r. (report w.env.terminal r).1) panics
