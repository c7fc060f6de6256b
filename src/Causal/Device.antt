-- ===== src/Causal/Device.antt =====
-- whyslow-cli/src/causal.rs: `DevNames`, the cache of device names.
use Prim.Native.Nat.{bit_and}
use whyslow.Base.{
  ℕ, ◌/◌, ◌^◌, ◌≡◌, refl, Bool, true, false, ◌&&◌, not, Option, none, some, List, [], ◌∷◌, ◌++◌,
  arith, ◌==◌, if◌then◌else◌, keep_if, All, Option-cases, inl, inr,
}
use whyslow.Base.Text.{Text, codes, decimal}
use whyslow.Base.Utf8.{from_utf8_lossy}
use whyslow.Causal.Env.{Env}

-- The parts of a path between its slashes.
segments : List ℕ → List (List ℕ)
segments [] = [] ∷ []
segments (b ∷ bs) =
    let rest = segments bs in
    if b == b'/' then [] ∷ rest else elim rest [ [] ↦ (b ∷ []) ∷ [] | s ∷ ss ↦ (b ∷ s) ∷ ss ]

-- Not empty and not `.`: such parts of a path name nothing.
abbrev names_something : List ℕ → Bool
names_something [] = false
names_something (c ∷ []) = not (c == b'.')
names_something _ = true

abbrev is_parent : List ℕ → Bool
is_parent (c ∷ d ∷ []) = c == b'.' && d == b'.'
is_parent _ = false

last_of : List (List ℕ) → Option (List ℕ)
last_of [] = none
last_of (s ∷ []) = some s
last_of (s ∷ t ∷ rest) = last_of (t ∷ rest)

-- `Path::file_name`: the last part, unless there is none or it is `..`.
unfoldable pub file_name : List ℕ → Option (List ℕ)
unfolding segments last_of
file_name path = elim (last_of (keep_if names_something (segments path))) [
  | none ↦ none
  | some s ↦ if is_parent s then none else some s
]

pub record DevNames : Type 0 where
  pub cache : List (ℕ × Text)

-- `DevNames::new`.
abbrev pub no_names : DevNames
no_names = record { cache = [] }

pub cached : ℕ → List (ℕ × Text) → Option Text
cached dev [] = none
cached dev ((d, n) ∷ rest) = let further = cached dev rest in if d == dev then some n else further

-- What `name` computes for a device that is not in the cache.
unfoldable pub resolve : Env → ℕ → Text
unfolding file_name
resolve env dev =
    let numbers = decimal (dev / 2 ^ 20) ++ codes ":" ++ decimal (bit_and dev 0xf_ffff) in
    let link : Option (List ℕ) = elim (env.read_link (codes "/sys/dev/block/" ++ numbers)) [
      | none ↦ none
      | some path ↦ file_name path
    ] in
    elim link [ none ↦ codes "dev" ++ numbers | some f ↦ from_utf8_lossy f ]

-- `DevNames::name`: the name, and the cache afterwards.
unfoldable pub name : Env → DevNames → ℕ → Text × DevNames
unfolding cached
name env names dev = elim (cached dev names.cache) [
  | some n ↦ (n, names)
  | none ↦ let n = resolve env dev in (n, record names { cache = (dev, n) ∷ names.cache })
]

-- Every entry of the cache is what the system answers.
abbrev pub IsFaithful : Env → DevNames → Type 0
IsFaithful env names = All (λ (p : ℕ × Text). p.1 ≡ resolve env p.0) names.cache

cached-resolve :
    (env : Env) (dev : ℕ) (entries : List (ℕ × Text)) {n : Text}
    → All (λ (p : ℕ × Text). p.1 ≡ resolve env p.0) entries
    → cached dev entries ≡ some n
    → n ≡ resolve env dev
unfolding cached
cached-resolve env dev [] h e = cc
cached-resolve env dev ((d, m) ∷ rest) {n} h e =
    ground (arith, cached-resolve env dev rest {n = n} h.1)

-- While the system answers alike, the cache cannot be told from asking each time: `name` gives the
-- name that the system gives, and leaves the cache faithful.
pub name-resolve :
    (env : Env) (names : DevNames) (dev : ℕ)
    → IsFaithful env names
    → ((name env names dev).0 ≡ resolve env dev) × IsFaithful env (name env names dev).1
unfolding name
name-resolve env names dev h = elim (Option-cases (cached dev names.cache)) [
  | inl e ↦ rw (e, name) (refl, (refl, h))
  | inr (n, e) ↦ rw (e, name) (cached-resolve env dev names.cache h e, h)
]
