-- ===== src/Base/Utf8.antt =====
-- `String::from_utf8_lossy`: each maximal ill-formed part of the bytes becomes one U+FFFD.
use whyslow.Base.{
  ℕ, ◌+◌, ◌-◌, ◌*◌, ◌<◌, ◌≡◌, refl, ◌&&◌, List, [], ◌∷◌, ◌++◌, arith, ltb, leb, ◌==◌, if◌then◌else◌,
  All,
}
use whyslow.Base.Text.{Text}

-- Inside a character: the bytes it still wants, the range of the next, and its bits so far.
pub data State : Type 0 where
  ready : State
  inside : (want lo hi bits : ℕ) → State

abbrev replacement : ℕ
replacement = 0xfffd

-- A byte at which a character may begin.
lead : ℕ → State × Text
lead b =
    if ltb b 0x80
    then (ready, b ∷ [])
    else if ltb b 0xc2
    then (ready, replacement ∷ [])
    else if ltb b 0xe0
    then (inside 1 0x80 0xbf (b - 0xc0), [])
    else if b == 0xe0
    then (inside 2 0xa0 0xbf 0, [])
    else if b == 0xed
    then (inside 2 0x80 0x9f 0xd, [])
    else if ltb b 0xf0
    then (inside 2 0x80 0xbf (b - 0xe0), [])
    else if b == 0xf0
    then (inside 3 0x90 0xbf 0, [])
    else if ltb b 0xf4
    then (inside 3 0x80 0xbf (b - 0xf0), [])
    else if b == 0xf4
    then (inside 3 0x80 0x8f 4, [])
    else (ready, replacement ∷ [])

step : State → ℕ → State × Text
unfolding lead
step ready b = lead b
step (inside want lo hi bits) b =
    if leb lo b && leb b hi
    then (let bits' = bits * 64 + (b - 0x80) in
        if want == 1 then (ready, bits' ∷ []) else (inside (want - 1) 0x80 0xbf bits', []))
    else (let (s, out) = lead b in (s, replacement ∷ out))

decode : State → List ℕ → Text
unfolding step
decode ready [] = []
decode (inside want lo hi bits) [] = replacement ∷ []
decode s (b ∷ bs) = let (s', out) = step s b in out ++ decode s' bs

unfoldable pub from_utf8_lossy : List ℕ → Text
unfolding decode
from_utf8_lossy bytes = decode ready bytes

abbrev pub IsAscii : ℕ → Type 0
IsAscii b = b < 0x80

pub from_utf8_lossy_ascii : (bytes : List ℕ) → All IsAscii bytes → from_utf8_lossy bytes ≡ bytes
unfolding from_utf8_lossy
from_utf8_lossy_ascii [] h = refl
from_utf8_lossy_ascii (b ∷ bs) h = ground (arith, from_utf8_lossy_ascii bs)

-- A dash of three bytes, a stray continuation byte, and a character cut off at the end.
mixed :
    from_utf8_lossy (0x61 ∷ 0xe2 ∷ 0x80 ∷ 0x94 ∷ 0x80 ∷ 0xe2 ∷ 0x80 ∷ [])
    ≡ 0x61 ∷ 0x2014 ∷ 0xfffd ∷ 0xfffd ∷ []
unfolding from_utf8_lossy
mixed = refl
