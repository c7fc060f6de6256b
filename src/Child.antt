-- ===== src/Child.antt =====
-- whyslow-cli/src/child.rs: waiting for the traced child, resuming it, and asking whether it exited.
-- `spawn_stopped` starts it, over the answers of the system to the calls of the two processes.
use whyslow.Base.{
  ℕ, ◌≡◌, refl, ap, ◌↔◌, Bool, Option, none, some, List, [], ◌∷◌, ◌++◌, arith, ◌==◌, All,
}
use whyslow.Base.Text.{Text, codes, decimal}
use whyslow.Base.Result.{ok, err, Error, Anyhow, answered, context}

-- `argv.join(" ")`.
unfoldable pub join : List Text → Text
join [] = []
join (arg ∷ []) = arg
join (arg ∷ rest) = arg ++ b' ' ∷ join rest

-- What the system answers when the child is started: `fork` in the parent, `traceme` and `exec` in
-- the child.
pub record Spawning : Type 0 where
  pub fork : Anyhow ℕ
  pub traceme : Option Error
  pub exec : Option Error

-- The closure that the child runs before it executes the program.
abbrev pub pre_exec : Spawning → Anyhow Unit
pre_exec s = answered s.traceme

-- `Command::spawn`: the child executes the program only if the closure fails not, and the parent is told
-- of an error of either.
abbrev pub executed : ℕ → Anyhow Unit → Option Error → Anyhow ℕ
executed pid (err why) exec = err why
executed pid (ok _) none = ok pid
executed pid (ok _) (some why) = err why

abbrev pub spawn : Anyhow ℕ → Anyhow Unit → Option Error → Anyhow ℕ
spawn (err why) hook exec = err why
spawn (ok pid) hook exec = executed pid hook exec

unfoldable pub spawn_stopped : List Text → Spawning → Anyhow ℕ
spawn_stopped argv s =
    context (codes "spawning `" ++ join argv ++ codes "`") (spawn s.fork (pre_exec s) s.exec)

-- The child has been started, and it is traced by this process from before it executes the program.
abbrev pub IsTraced : Spawning → ℕ → Type 0
IsTraced s pid = (s.fork ≡ ok pid) × ((s.traceme ≡ none) × (s.exec ≡ none))

spawn-ok :
    (fork : Anyhow ℕ) (traceme exec : Option Error) (pid : ℕ)
    → spawn fork (answered traceme) exec ≡ ok pid
    → (fork ≡ ok pid) × ((traceme ≡ none) × (exec ≡ none))
spawn-ok (err why) traceme exec pid e = absurd (ground arith)
spawn-ok (ok forked) (some why) exec pid e = absurd (ground arith)
spawn-ok (ok forked) none none pid e = (e, (refl, refl))
spawn-ok (ok forked) none (some why) pid e = absurd (ground arith)

context-ok :
    {A : Type 0} (message : Text) (r : Anyhow A) (a : A) → context message r ≡ ok a → r ≡ ok a
context-ok message (ok b) a e = e
context-ok message (err why) a e = absurd (ground arith)

pub spawn_stopped-ok :
    (argv : List Text) (s : Spawning) (pid : ℕ) → spawn_stopped argv s ≡ ok pid → IsTraced s pid
unfolding spawn_stopped
spawn_stopped-ok argv s pid e = spawn-ok s.fork s.traceme s.exec pid (
    context-ok (codes "spawning `" ++ join argv ++ codes "`") (spawn s.fork (pre_exec s) s.exec) pid
      e)

-- What a status of `waitpid` says by libc's tests.
pub data Status : Type 0 where
  stopped : Status
  exited : Status
  signaled : Status
  neither : Status

-- An answer of `waitpid`: it fails, with the error of the system, or it gives a status.
pub data Waited : Type 0 where
  failed : Text → Waited
  changed : Status → Waited

-- The loop, over the answers of `waitpid` in turn; `none` where it still waits.
unfoldable pub wait_until_stopped : ℕ → List Waited → Option (Anyhow Unit)
wait_until_stopped pid [] = none
wait_until_stopped pid (failed why ∷ answers) =
    some (err ((codes "waitpid(" ++ decimal pid ++ codes ") failed: " ++ why) ∷ []))
wait_until_stopped pid (changed stopped ∷ answers) = some (ok tt)
wait_until_stopped pid (changed exited ∷ answers) =
    some (err ((codes "child " ++ decimal pid ++ codes " exited before tracing could start") ∷ []))
wait_until_stopped pid (changed signaled ∷ answers) =
    some (err ((codes "child " ++ decimal pid ++ codes " exited before tracing could start") ∷ []))
wait_until_stopped pid (changed neither ∷ answers) = wait_until_stopped pid answers

-- `answer` is the error of the system if the call of `ptrace` fails.
unfoldable pub resume : ℕ → Option Text → Anyhow Unit
resume pid none = ok tt
resume pid (some why) =
    err ((codes "PTRACE_DETACH(" ++ decimal pid ++ codes ") failed: " ++ why) ∷ [])

-- `ret` is what `waitpid` with `WNOHANG` returns: 0 if the child has not changed, or its pid.
unfoldable pub has_exited : ℕ → ℕ → Bool
has_exited pid ret = ret == pid

-- An answer on which the loop goes on.
abbrev pub IsPassed : Waited → Type 0
IsPassed answer = answer ≡ changed neither

wait_until_stopped-ok :
    (pid : ℕ) (answers : List Waited)
    → wait_until_stopped pid answers ≡ some (ok tt)
    → (before later : List Waited) × All IsPassed before
      × (answers ≡ before ++ changed stopped ∷ later)
unfolding wait_until_stopped
wait_until_stopped-ok pid [] e = absurd (ground arith)
wait_until_stopped-ok pid (failed why ∷ answers) e = absurd (ground arith)
wait_until_stopped-ok pid (changed stopped ∷ answers) e = ([], answers, tt, refl)
wait_until_stopped-ok pid (changed exited ∷ answers) e = absurd (ground arith)
wait_until_stopped-ok pid (changed signaled ∷ answers) e = absurd (ground arith)
wait_until_stopped-ok pid (changed neither ∷ answers) e =
    let (before, later, passed, same) = wait_until_stopped-ok pid answers e in
    (changed neither ∷ before, later, (refl, passed), ap (◌∷◌ (changed neither)) same)

stopped-wait_until_stopped :
    (pid : ℕ) (before later : List Waited)
    → All IsPassed before
    → wait_until_stopped pid (before ++ changed stopped ∷ later) ≡ some (ok tt)
unfolding wait_until_stopped
stopped-wait_until_stopped pid [] later passed = refl
stopped-wait_until_stopped pid (answer ∷ before) later passed =
    rw passed.0 (stopped-wait_until_stopped pid before later passed.1)

-- `wait_until_stopped` returns without an error exactly if an answer of `waitpid` says that the child
-- stopped, and every answer before it is a status that says neither that it stopped nor that it ended.
pub wait_until_stopped-ok_iff :
    (pid : ℕ) (answers : List Waited)
    → (wait_until_stopped pid answers ≡ some (ok tt)) ↔ (
        (before later : List Waited) × All IsPassed before
        × (answers ≡ before ++ changed stopped ∷ later))
wait_until_stopped-ok_iff pid answers = (
  wait_until_stopped-ok pid answers,
  λ (before, later, passed, same). rw same (stopped-wait_until_stopped pid before later passed),
)
