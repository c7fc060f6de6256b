-- ===== src/Base/Result.antt =====
-- `Result`, `anyhow`'s errors as chains of messages, and the answers of a lookup that can be missing
-- or refused.
use whyslow.Base.{◌≡◌, refl, ◌⊎◌, inl, inr, List, ◌∷◌, Option, none, some}
use whyslow.Base.Text.{Text}

pub data Result (A : Type 0) (E : Type 0) : Type 0 where
  ok : A → Result A E
  err : E → Result A E

-- An error: its message, and then those of its causes.
abbrev pub Error : Type 0
Error = List Text

abbrev pub Anyhow : Type 0 → Type 0
Anyhow A = Result A Error

-- `Context::context` and `with_context`.
abbrev pub context : {A : Type 0} → Text → Anyhow A → Anyhow A
context message (ok a) = ok a
context message (err why) = err (message ∷ why)

-- What a call that gives no value answers.
abbrev pub answered : Option Error → Anyhow Unit
answered none = ok tt
answered (some why) = err why

-- What looking a thing up in the loaded object and taking it at its type answers.
pub data Lookup : Type 0 where
  missing : Lookup
  refused : Error → Lookup
  found : Lookup

pub Anyhow-cases :
    {A : Type 0} (r : Anyhow A) → ((a : A) × (r ≡ ok a)) ⊎ ((why : Error) × (r ≡ err why))
Anyhow-cases (ok a) = inl (a, refl)
Anyhow-cases (err why) = inr (why, refl)
