-- ===== src/Causal/Format.antt =====
-- whyslow-cli/src/causal.rs: times, durations and the lines of a chain.
use whyslow.Base.{ℕ, ◌/◌, ◌%◌, ◌++◌, leb, if◌then◌else◌}
use whyslow.Base.Text.{Text, codes, decimal, hex, padded}
use whyslow.Ui.Paint.{blue, bold_red, bold_yellow, cyan, dim, green, magenta}
use whyslow.Causal.Env.{Env}

module _ (env : Env) where
  open env use {f64_of, f64_div, f64_fixed2, localtime_r, terminal}

  unfoldable pub format_wall_time : ℕ → Text
  format_wall_time unix_ns =
      let secs = unix_ns / 1_000_000_000 in
      let millis = unix_ns % 1_000_000_000 / 1_000_000 in
      let tm = localtime_r secs in
      padded 2 tm.tm_hour
      ++ codes ":"
      ++ padded 2 tm.tm_min
      ++ codes ":"
      ++ padded 2 tm.tm_sec
      ++ codes "."
      ++ padded 3 millis

  unfoldable pub format_duration : ℕ → Text
  format_duration ns =
      if leb 1_000_000_000 ns
      then f64_fixed2 (f64_div (f64_of ns) (f64_of 1_000_000_000)) ++ codes "s"
      else if leb 1_000_000 ns
      then decimal (ns / 1_000_000) ++ codes "ms"
      else if leb 1_000 ns
      then decimal (ns / 1_000) ++ codes "µs"
      else decimal ns ++ codes "ns"

  abbrev tid_text : ℕ → Text
  tid_text tid = bold_yellow terminal (codes "tid " ++ decimal tid)

  abbrev duration_text : ℕ → Text
  duration_text ns = bold_red terminal (format_duration ns)

  -- `futex {:#x}`
  unfoldable pub futex_text : ℕ → Text
  futex_text key = magenta terminal (codes "futex " ++ hex key)

  -- `block I/O (dev {}, sector {})`
  unfoldable pub block_io_text : Text → ℕ → Text
  block_io_text dev_name sector =
      cyan terminal
        (codes "block I/O (dev " ++ dev_name ++ codes ", sector " ++ decimal sector ++ codes ")")

  -- `{wall} — tid {} blocked {} on {}`
  unfoldable pub headline : Text → ℕ → ℕ → Text → Text
  headline wall tid duration_ns what =
      blue terminal wall
      ++ codes " "
      ++ dim terminal (codes "—")
      ++ codes " "
      ++ tid_text tid
      ++ codes " blocked "
      ++ duration_text duration_ns
      ++ codes " on "
      ++ what

  unfoldable pub headline_unknown : Text → ℕ → ℕ → Text
  headline_unknown wall tid duration_ns =
      blue terminal wall
      ++ codes " "
      ++ dim terminal (codes "—")
      ++ codes " "
      ++ tid_text tid
      ++ codes " blocked "
      ++ duration_text duration_ns
      ++ codes " "
      ++ dim terminal (codes "(no correlated cause found)")

  -- ` ← woken by tid {}`
  unfoldable pub woken_line : ℕ → Text
  woken_line tid =
      codes " "
      ++ dim terminal (codes "←")
      ++ codes " "
      ++ green terminal (codes "woken by")
      ++ codes " "
      ++ tid_text tid

  -- ` ← tid {} blocked {} on {}`
  unfoldable pub blocked_line : ℕ → ℕ → Text → Text
  blocked_line tid duration_ns what =
      codes " "
      ++ dim terminal (codes "←")
      ++ codes " "
      ++ tid_text tid
      ++ codes " blocked "
      ++ duration_text duration_ns
      ++ codes " on "
      ++ what
