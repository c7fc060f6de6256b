-- ===== src/Trace/Disk.antt =====
-- whyslow-cli/src/trace.rs: `write_to` and `read_from`, over the files of a disk. What serde_json does
-- with a trace is a parameter.
use whyslow.Base.{
  ℕ, ◌≡◌, refl, Option, none, some, List, if◌then◌else◌, take, Option-cases, inl, inr, arith,
}
use whyslow.Base.Text.{Text, is_text}
use whyslow.Base.Result.{ok, err, Error, Anyhow}
use whyslow.Trace.Defs.{TraceFile}

-- `serde_json`: the bytes of a trace, and the trace that bytes stand for.
pub record Serde : Type 0 where
  pub to_writer_pretty : TraceFile → List ℕ
  pub from_reader : List ℕ → Anyhow TraceFile

-- What `serde_json` documents: a value that it wrote it reads back.
abbrev pub Restores : Serde → Type 0
Restores serde = (t : TraceFile) → serde.from_reader (serde.to_writer_pretty t) ≡ ok t

-- The contents of the files, by path.
abbrev pub Files : Type 0
Files = Text → Option (List ℕ)

abbrev pub put_file : Text → Option (List ℕ) → Files → Files
put_file path content files at = if is_text at path then content else files at

-- The answers of the system: `create` and `opening` are the errors of opening the file, `writer` says
-- after how many bytes a write fails, `reader` that a read does.
pub record Disk : Type 0 where
  pub create : Option Error
  pub writer : Option (ℕ × Error)
  pub opening : Option Error
  pub not_found : Error
  pub reader : Option Error

module _ (serde : Serde) (disk : Disk) where
  -- `File::create` empties the file; the bytes that were written before an error stay in it.
  unfoldable pub write_to : TraceFile → Text → Files → Files × Anyhow Unit
  write_to t path files = elim disk.create [
    | some why ↦ (files, err why)
    | none ↦ elim disk.writer [
      | some (n, why) ↦ (put_file path (some (take n (serde.to_writer_pretty t))) files, err why)
      | none ↦ (put_file path (some (serde.to_writer_pretty t)) files, ok tt)
    ]
  ]

  unfoldable pub read_from : Text → Files → Anyhow TraceFile
  read_from path files = elim (files path) [
    | none ↦ err disk.not_found
    | some content ↦ elim disk.opening [
      | some why ↦ err why
      | none ↦ elim disk.reader [ some why ↦ err why | none ↦ serde.from_reader content ]
    ]
  ]

-- Writing succeeds only if no call fails, whatever files there are, and then leaves all bytes at the
-- path.
pub write_to-ok :
    (serde : Serde) (disk : Disk) (t : TraceFile) (path : Text) (files files' : Files)
    → (write_to serde disk t path files).1 ≡ ok tt
    → (write_to serde disk t path files').0 ≡ put_file path (some (serde.to_writer_pretty t)) files'
unfolding write_to
write_to-ok serde disk t path files files' writes = elim (Option-cases disk.create) [
  | inl created ↦ elim (Option-cases disk.writer) [
    | inl whole ↦ rw (created, whole) refl
    | inr (cut, e) ↦ absurd (ground arith)
  ]
  | inr (why, e) ↦ absurd (ground arith)
]

-- What stands at the path is read back, by calls that succeed.
pub read_from_lem :
    (serde : Serde) (disk : Disk) (t : TraceFile) (path : Text) (files : Files)
    → Restores serde
    → files path ≡ some (serde.to_writer_pretty t)
    → disk.opening ≡ none
    → disk.reader ≡ none
    → read_from serde disk path files ≡ ok t
unfolding read_from
read_from_lem serde disk t path files restores at opens reads =
    rw (at, opens, reads, read_from) (restores t)
