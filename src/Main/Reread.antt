-- ===== src/Main/Reread.antt =====
-- whyslow-cli/src/main.rs and whyslow-cli/src/trace.rs: the trace file that a command leaves, and what
-- `explain` makes of it.
use mathlib.Core.List.{append_assoc}
use whyslow.Base.{ℕ, ◌≡◌, refl, sym, ◌∙◌, ap, subst, none, some, List, [], ◌∷◌, ◌++◌}
use whyslow.Base.Text.{Text, is_text_refl}
use whyslow.Base.Result.{ok}
use whyslow.Trace.Defs.{TraceFile}
use whyslow.Trace.Disk.{
  Disk, Serde, Restores, Files, put_file, write_to, read_from, read_from_lem, write_to-ok,
}
use whyslow.Causal.Explain.{Chain, explain, print_chains}
use whyslow.Main.Effects.{
  Effect, printed, spawned, attached, target_set, clocks_read, TakesAll, chains_site, resumed,
  handler_set, wrote, left_behind, returned, World,
}
use whyslow.Main.Commands.{explain_cmd, print_explained}
use whyslow.Main.Printing.{prints-all}
use whyslow.Main.Cli.{Command, explain_command, try_main}
use whyslow.Main.Reports.{saves_to, try_main-Reports}

-- The files after the effects.
unfoldable pub files_after : Serde → Disk → List Effect → Files → Files
files_after serde disk [] files = files
files_after serde disk (wrote path t ∷ later) files =
    files_after serde disk later (write_to serde disk t path files).0
files_after serde disk (left_behind path content ∷ later) files =
    files_after serde disk later (put_file path content files)
files_after serde disk (printed texts ∷ later) files = files_after serde disk later files
files_after serde disk (spawned pid ∷ later) files = files_after serde disk later files
files_after serde disk (attached specs ∷ later) files = files_after serde disk later files
files_after serde disk (target_set slot ∷ later) files = files_after serde disk later files
files_after serde disk (clocks_read anchor ∷ later) files = files_after serde disk later files
files_after serde disk (resumed pid ∷ later) files = files_after serde disk later files
files_after serde disk (handler_set ∷ later) files = files_after serde disk later files

files_after-append :
    (serde : Serde) (disk : Disk) (before later : List Effect) (files : Files)
    → files_after serde disk (before ++ later) files
      ≡ files_after serde disk later (files_after serde disk before files)
unfolding files_after
files_after-append serde disk [] later files = refl
files_after-append serde disk (wrote path t ∷ before) later files =
    files_after-append serde disk before later _
files_after-append serde disk (left_behind path content ∷ before) later files =
    files_after-append serde disk before later _
files_after-append serde disk (printed texts ∷ before) later files =
    files_after-append serde disk before later _
files_after-append serde disk (spawned pid ∷ before) later files =
    files_after-append serde disk before later _
files_after-append serde disk (attached specs ∷ before) later files =
    files_after-append serde disk before later _
files_after-append serde disk (target_set slot ∷ before) later files =
    files_after-append serde disk before later _
files_after-append serde disk (clocks_read anchor ∷ before) later files =
    files_after-append serde disk before later _
files_after-append serde disk (resumed pid ∷ before) later files =
    files_after-append serde disk before later _
files_after-append serde disk (handler_set ∷ before) later files =
    files_after-append serde disk before later _

-- The last file written is at its path, whatever else is printed.
written_at :
    (serde : Serde) (disk : Disk) (before : List Effect) (path : Text) (t : TraceFile)
    (first last : List Text) (files : Files)
    → (write_to serde disk t path files).1 ≡ ok tt
    → files_after serde disk (before ++ wrote path t ∷ printed first ∷ printed last ∷ []) files path
      ≡ some (serde.to_writer_pretty t)
unfolding files_after
written_at serde disk before path t first last files writes =
    let content =
      put_file path (some (serde.to_writer_pretty t)) (files_after serde disk before files) in
    let same : content path ≡ some (serde.to_writer_pretty t) = rw (is_text_refl path) refl in
    ap (λ fs. fs path) (files_after-append serde disk before _ files)
    ∙ ap (λ fs. fs path) (write_to-ok serde disk t path files _ writes)
    ∙ same

explain_cmd_lem :
    (v : World) (path : Text) (slowest : ℕ) (t : TraceFile) (chains : List Chain)
    → TakesAll v
    → read_from v.serde v.disk path v.files ≡ ok t
    → explain v.env t slowest ≡ some chains
    → explain_cmd v path slowest
      ≡ record { effects = printed (print_chains v.env chains) ∷ []; result = some (ok tt) }
unfolding explain_cmd print_explained
explain_cmd_lem v path slowest t chains takes reads explained =
    rw (reads, explained, print_explained)
      (prints-all (v.stdout chains_site) (print_chains v.env chains) returned (takes chains_site))

-- If `run` or `attach` returns without an error, the last that it has done is printing chains; and if then,
-- on the files that it leaves, `explain` is called with the same path and number of chains, everything
-- that the texts are made from is the same (local time, the floating-point texts, the names of devices
-- and the terminal), the standard output takes every line, the file opens and is read, and serde_json
-- reads back what it wrote, then `explain` returns without an error and prints exactly these chains again.
pub try_main-explain :
    (w v : World) (command : Command) (trace_out : Text) (slowest : ℕ)
    → saves_to command ≡ some (trace_out, slowest)
    → (try_main w command).result ≡ some (ok tt)
    → TakesAll v
    → Restores w.serde
    → v.serde ≡ w.serde
    → v.env ≡ w.env
    → v.files ≡ files_after w.serde w.disk (try_main w command).effects w.files
    → v.disk.opening ≡ none
    → v.disk.reader ≡ none
    → (before : List Effect) × (chains : List Text) × ((try_main w command).effects
        ≡ before ++ printed chains ∷ [])
      × (try_main v (explain_command slowest trace_out)
          ≡ record { effects = printed chains ∷ []; result = some (ok tt) })
unfolding try_main
try_main-explain w v command trace_out slowest saves fine takes restores codec env files opens
      reads =
    let (t, chains, before, writes, explained, same) =
      (try_main-Reports w command trace_out slowest saves).0 fine in
    let at : v.files trace_out ≡ some (v.serde.to_writer_pretty t) =
      ap (λ fs. fs trace_out) files
      ∙ ap (λ es. files_after w.serde w.disk es w.files trace_out) same
      ∙ written_at w.serde w.disk before trace_out t _ _ w.files writes
      ∙ ap (λ c. some (c.to_writer_pretty t)) (sym codec) in
    let again =
      explain_cmd_lem v trace_out slowest t chains takes
        (read_from_lem v.serde v.disk t trace_out v.files (subst Restores (sym codec) restores) at
          opens reads)
        (ap (λ e. explain e t slowest) env ∙ explained) in
    (
      before ++ wrote trace_out t ∷ printed ([] ∷ []) ∷ [],
      print_chains w.env chains,
      same ∙ sym (append_assoc before _ _),
      again
          ∙ ap
              (λ e. record {
                effects = printed (print_chains e chains) ∷ [];
                result = some (ok tt);
              })
              env,
    )
