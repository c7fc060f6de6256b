-- ===== src/Main/Printing.antt =====
-- whyslow-cli/src/main.rs: `println!` where every line is taken.
use whyslow.Base.{
  ℕ, ◌≡◌, ◌≢◌, ◌⊎◌, inl, inr, refl, ap, length, take, ltb, Option, none, some, List, arith, Bool,
  true, false,
}
use whyslow.Base.Text.{Text}
use whyslow.Base.Result.{ok, err}
use whyslow.Main.Effects.{panicked, printed, Out, did, cut_or, prints}

-- Where every line is taken, printing is the effect of printing.
pub prints-all :
    (stdout : Option ℕ) (lines : List Text) (out : Out)
    → stdout ≡ none
    → prints stdout lines out ≡ did (printed lines) out
prints-all stdout lines out takes = ap (λ o. prints o lines out) takes

cut_or-fine :
    (cut : Bool) (first lines : List Text) (out : Out)
    → (cut_or cut first lines out).result ≡ some (ok tt)
    → (out.result ≡ some (ok tt)) × (cut_or cut first lines out ≡ did (printed lines) out)
cut_or-fine true first lines out fine = absurd (ground arith)
cut_or-fine false first lines out fine = (fine, refl)

-- A command that succeeds has printed every line.
pub prints-fine :
    (stdout : Option ℕ) (lines : List Text) (out : Out)
    → (prints stdout lines out).result ≡ some (ok tt)
    → (out.result ≡ some (ok tt)) × (prints stdout lines out ≡ did (printed lines) out)
prints-fine none lines out fine = (fine, refl)
prints-fine (some n) lines out fine =
    cut_or-fine (ltb n (length lines)) (take n lines) lines out fine

-- Something is not taken, and the command panics.
abbrev pub Panics : Out → Type 0
Panics out = out.result ≡ some (err panicked)

cut_or-cases :
    (cut : Bool) (first lines : List Text) (out : Out)
    → (cut_or cut first lines out ≡ did (printed lines) out) ⊎ Panics (cut_or cut first lines out)
cut_or-cases true first lines out = inr refl
cut_or-cases false first lines out = inl refl

pub prints-cases :
    (stdout : Option ℕ) (lines : List Text) (out : Out)
    → (prints stdout lines out ≡ did (printed lines) out)
      ⊎ (Panics (prints stdout lines out) × (stdout ≢ none))
prints-cases none lines out = inl refl
prints-cases (some n) lines out =
    elim (cut_or-cases (ltb n (length lines)) (take n lines) lines out) [
      | inl all ↦ inl all
      | inr panics ↦ inr (panics, λ e. ground arith)
    ]
