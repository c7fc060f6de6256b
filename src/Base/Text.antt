-- ===== src/Base/Text.antt =====
-- Text as a list of code points, and the parts of `format!` that the program uses: `{}` and `{:x}`
-- of an unsigned number, and `{:02}`.
use Prim.Native.Nat.{ℕ, zero, suc, ◌+◌, ◌-◌, ◌/◌, ◌%◌, ◌^◌}
use Prim.Native.Char.{code}
use Prim.Native.String.{String}
use mathlib.Core.Path.{◌≡◌, refl}
use mathlib.Core.Bool.{Bool, true, false, ◌&&◌}
use mathlib.Core.List.{List, [], ◌∷◌, ◌++◌, flatten}
use whyslow.Base.Tests.{ltb, ◌==◌, ==_refl, if◌then◌else◌}
use whyslow.Base.Lists.{length, replicate}

abbrev pub Text : Type 0
Text = List ℕ

abbrev pub codes : String → Text
codes String.[] = []
codes (String.◌∷◌ c s) = code c ∷ codes s

-- A digit below ten, or a small letter.
abbrev digit : ℕ → ℕ
digit d = if ltb d 10 then b'0' + d else b'a' + d - 10

-- The digits of `n` in front of `acc`, at most `fuel` of them.
digits_onto : ℕ → ℕ → ℕ → Text → Text
digits_onto zero base n acc = acc
digits_onto (suc fuel) base n acc =
    let here = digit (n % base) ∷ acc in
    let rest = digits_onto fuel base (n / base) here in if ltb n base then here else rest

-- `{}` of a `u64`: twenty digits are enough below 2 ^ 64.
unfoldable pub decimal : ℕ → Text
unfolding digits_onto
decimal n = digits_onto 20 10 n []

-- `{:#x}` of a `u64`: sixteen digits are enough.
unfoldable pub hex : ℕ → Text
unfolding digits_onto
hex n = b'0' ∷ b'x' ∷ digits_onto 16 16 n []

-- `{:0w}`: zeros on the left up to the width.
unfoldable pub padded : ℕ → ℕ → Text
unfolding decimal
padded width n = replicate (width - length (decimal n)) b'0' ++ decimal n

-- `String::repeat`.
abbrev pub repeat : ℕ → Text → Text
repeat n s = flatten (replicate n s)

samples : (decimal 0 ≡ codes "0") × (decimal 4821 ≡ codes "4821") × (padded 3 7 ≡ codes "007")
unfolding decimal padded
samples = (refl, refl, refl)

hex_sample : hex 0x7f2a_3c00_1000 ≡ codes "0x7f2a3c001000"
unfolding hex
hex_sample = refl

largest : decimal (2 ^ 64 - 1) ≡ codes "18446744073709551615"
unfolding decimal
largest = refl

-- `==` of two texts.
abbrev pub is_text : Text → Text → Bool
is_text [] [] = true
is_text [] (y ∷ ys) = false
is_text (x ∷ xs) [] = false
is_text (x ∷ xs) (y ∷ ys) = x == y && is_text xs ys

pub is_text_refl : (t : Text) → is_text t t ≡ true
is_text_refl [] = refl
is_text_refl (x ∷ xs) = rw (==_refl x, is_text_refl xs) refl
