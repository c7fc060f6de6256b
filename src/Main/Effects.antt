-- ===== src/Main/Effects.antt =====
-- whyslow-cli/src/main.rs: the effects of the commands, and the world that answers their calls.
use whyslow.Base.{ℕ, ◌≡◌, Bool, true, false, Option, none, some, List, [], ◌∷◌, length, take, ltb}
use whyslow.Base.Text.{Text}
use whyslow.Base.Result.{Result, ok, err, Error, Anyhow, Lookup}
use whyslow.Trace.Defs.{TraceFile, Timespec}
use whyslow.Trace.Disk.{Serde, Disk, Files}
use whyslow.Causal.Env.{Env}
use whyslow.Child.{Spawning, Waited}
use whyslow.Ebpf.Probes.{Maps, Probes}
use whyslow.Bpf.Load.{TracepointSpec, Answers}
use whyslow.Bpf.Drain.{Item}

-- `target_set` carries the slot as the call leaves it, `clocks_read` the two clocks, and `left_behind` what
-- a write that failed leaves at the path.
pub data Effect : Type 0 where
  printed : List Text → Effect
  spawned : ℕ → Effect
  attached : List TracepointSpec → Effect
  target_set : Option ℕ → Effect
  clocks_read : ℕ × ℕ → Effect
  resumed : ℕ → Effect
  handler_set : Effect
  wrote : Text → TraceFile → Effect
  left_behind : Text → Option (List ℕ) → Effect

-- How a command ends that does not succeed: with an error, or in a panic.
pub data Fault : Type 0 where
  failed : Error → Fault
  panicked : Fault

-- What a command did, and what it returned; `none` where it waits still.
pub record Out : Type 0 where
  pub effects : List Effect
  pub result : Option (Result Unit Fault)

abbrev pub did : Effect → Out → Out
did e out = record { effects = e ∷ out.effects; result = out.result }

abbrev pub failed_with : Error → Out
failed_with why = record { effects = []; result = some (err (failed why)) }

abbrev pub panics : Out
panics = record { effects = []; result = some (err panicked) }

abbrev pub returned : Out
returned = record { effects = []; result = some (ok tt) }

abbrev pub still_waiting : Out
still_waiting = record { effects = []; result = none }

-- The `?` operator.
abbrev pub on_ok : {A : Type 0} → Anyhow A → (A → Out) → Out
on_ok (ok a) next = next a
on_ok (err why) next = failed_with why

-- The places that print.
pub data Site : Type 0 where
  banner_site : Site
  start_site : Site  -- the line on what is traced
  blank_site : Site
  chains_site : Site

abbrev pub cut_or : Bool → List Text → List Text → Out → Out
cut_or true first lines rest = did (printed first) panics
cut_or false first lines rest = did (printed lines) rest

-- A `println!` for each line, and then `rest`. The first argument is the number of the line that the
-- standard output does not take, if there is one; `println!` panics there.
abbrev pub prints : Option ℕ → List Text → Out → Out
prints none lines rest = did (printed lines) rest
prints (some n) lines rest = cut_or (ltb n (length lines)) (take n lines) lines rest

-- A round of the drain in `run`: the items, and what `waitpid` returns when it is asked.
pub record Polled : Type 0 where
  pub items : List Item
  pub ret : ℕ

-- A round of the drain in `attach`: the items, and what `should_stop` finds when it is asked: how often
-- SIGINT has been handled by then, the time in nanoseconds, and whether `kill(pid, 0)` fails.
pub record Watched : Type 0 where
  pub items : List Item
  pub sigints : ℕ
  pub now : ℕ
  pub is_gone : Bool

-- The answers of the system and of the libraries to the calls of a command. What the drain finds depends
-- on the state in which setting the target leaves the programs.
pub record World : Type 1 where
  pub env : Env
  pub euid : ℕ
  pub stdout : Site → Option ℕ
  pub child : Spawning
  pub waits : List Waited
  pub is_running : Bool
  pub bpf : Answers
  pub maps : Maps
  pub probes : Probes maps
  pub target_map : Lookup
  pub set_answer : Option Error
  pub realtime : Timespec
  pub monotonic : Timespec
  pub detach : Option Text
  pub events_map : Lookup
  pub polls : Probes maps → List Polled
  pub started : ℕ
  pub watches : Probes maps → List Watched
  pub last : Probes maps → List Item
  pub serde : Serde
  pub disk : Disk
  pub files : Files

-- The standard output takes every line.
abbrev pub TakesAll : World → Type 0
TakesAll w = (site : Site) → w.stdout site ≡ none
