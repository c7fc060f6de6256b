-- ===== src/Trace/Comm.antt =====
-- whyslow-cli/src/trace.rs: the command name in an event, cut at its first NUL byte.
use whyslow.Base.{ℕ, ◌<◌, ◌≡◌, refl, ap, List, [], ◌∷◌, ◌++◌, arith, length, take, All}
use whyslow.Base.Utf8.{from_utf8_lossy_ascii, IsAscii}
use whyslow.Event.Schema.{Event}
use whyslow.Trace.Defs.{comm_end, from_event}

-- An ASCII character other than NUL.
abbrev pub IsNameByte : ℕ → Type 0
IsNameByte b = (0 < b) × IsAscii b

comm_end-append :
    (name rest : List ℕ) → All IsNameByte name → comm_end (name ++ 0 ∷ rest) ≡ length name
unfolding comm_end
comm_end-append [] rest h = refl
comm_end-append (b ∷ name) rest h = ground (arith, comm_end-append name rest)

take-comm_end :
    (name rest : List ℕ)
    → All IsNameByte name
    → take (comm_end (name ++ 0 ∷ rest)) (name ++ 0 ∷ rest) ≡ name
take-comm_end name rest h = rw (comm_end-append name rest h) (take-length name)
  where
    take-length : (xs : List ℕ) → take (length xs) (xs ++ 0 ∷ rest) ≡ xs
    take-length [] = refl
    take-length (x ∷ xs) = ap (◌∷◌ x) (take-length xs)

-- A command name of ASCII characters, ended by a NUL byte in the event, is carried over whole, and
-- what stands behind the NUL byte is left out.
pub from_event_name :
    (ev : Event) (name rest : List ℕ)
    → All IsNameByte name
    → ev.comm ≡ name ++ 0 ∷ rest
    → (from_event ev).comm ≡ name
unfolding from_event
from_event_name ev name rest h e =
    rw (e, take-comm_end name rest h) (from_utf8_lossy_ascii name (ascii name h))
  where
    ascii : (xs : List ℕ) → All IsNameByte xs → All IsAscii xs
    ascii [] h = tt
    ascii (x ∷ xs) h = (h.0.1, ascii xs h.1)
