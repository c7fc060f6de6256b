-- ===== src/Causal/Env.antt =====
-- What whyslow-cli/src/causal.rs takes from outside the repository, and the `f64` operations that
-- it formats seconds with. Nothing is assumed of them.
use whyslow.Base.{ℕ, Option, List}
use whyslow.Base.Text.{Text}
use whyslow.Ui.Paint.{Terminal}

-- The fields of `libc::tm` that are read.
pub record Tm : Type 0 where
  pub tm_hour : ℕ
  pub tm_min : ℕ
  pub tm_sec : ℕ

pub record Env : Type 1 where
  pub F64 : Type 0
  pub f64_of : ℕ → F64  -- `as f64`
  pub f64_div : F64 → F64 → F64
  pub f64_fixed2 : F64 → Text  -- `{:.2}`
  pub localtime_r : ℕ → Tm
  -- `read_link` of a path: the bytes of its target, or no value on any error.
  pub read_link : Text → Option (List ℕ)
  pub terminal : Terminal
