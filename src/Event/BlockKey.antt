-- ===== src/Event/BlockKey.antt =====
-- whyslow-common/src/lib.rs: packing `(dev, sector)` into a key and taking it apart again.
use Prim.Native.Nat.{bit_and}
use whyslow.Base.{ℕ, ◌+◌, ◌*◌, ◌%◌, ◌^◌, ◌<◌, ◌≡◌, ◌↔◌, arith}
use whyslow.Base.Bits.{bit_and-ones, bit_or-shifted}
use whyslow.Event.Schema.{pack_block_key, unpack_block_key}

pub low_word : (x : ℕ) → bit_and x 0xffff_ffff ≡ x % 2 ^ 32
low_word x = bit_and-ones 32 x

-- The key as a number: the device in the high word, the sector's low word below it.
pub pack_block_key_sum :
    (dev sector : ℕ) → dev < 2 ^ 32 → pack_block_key dev sector ≡ dev * 2 ^ 32 + sector % 2 ^ 32
unfolding pack_block_key
pack_block_key_sum dev sector h =
    let whole : dev * 2 ^ 32 % 2 ^ 64 ≡ dev * 2 ^ 32 = omega arith in
    rw (whole, low_word sector) (bit_or-shifted 32 dev (sector % 2 ^ 32) (omega arith))

-- A packed key fits in 64 bits.
pub pack_block_key-lt : (dev sector : ℕ) → dev < 2 ^ 32 → pack_block_key dev sector < 2 ^ 64
pack_block_key-lt dev sector h = omega (arith, pack_block_key_sum dev sector h)

unpack_parts :
    (key : ℕ) → (unpack_block_key key).0 * 2 ^ 32 + (unpack_block_key key).1 ≡ key % 2 ^ 64
unfolding unpack_block_key
unpack_parts key = omega (arith, low_word key)

unpack_bounds :
    (key : ℕ) → ((unpack_block_key key).0 < 2 ^ 32) × ((unpack_block_key key).1 < 2 ^ 32)
unfolding unpack_block_key
unpack_bounds key = omega arith

-- For a 32-bit device number, unpacking a packed key gives the device back in full and the sector
-- modulo 2 ^ 32.
pub unpack_block_key-pack_block_key :
    (dev sector : ℕ)
    → dev < 2 ^ 32
    → unpack_block_key (pack_block_key dev sector) ≡ (dev, sector % 2 ^ 32)
unpack_block_key-pack_block_key dev sector h = ground (
  arith,
  unpack_parts (pack_block_key dev sector),
  unpack_bounds (pack_block_key dev sector),
  pack_block_key_sum dev sector h,
)

-- Packing the two parts of any 64-bit key gives the key back: no key is out of reach.
pub pack_block_key-unpack_block_key :
    (key : ℕ)
    → key < 2 ^ 64
    → pack_block_key (unpack_block_key key).0 (unpack_block_key key).1 ≡ key
pack_block_key-unpack_block_key key h = omega (
  arith,
  pack_block_key_sum (unpack_block_key key).0 (unpack_block_key key).1 (unpack_bounds key).0,
  unpack_parts key,
  unpack_bounds key,
)

-- Two requests on 32-bit devices share a key exactly when the devices are equal and the sectors
-- are equal modulo 2 ^ 32.
pub pack_block_key-eq_iff :
    (dev sector dev' sector' : ℕ)
    → dev < 2 ^ 32
    → dev' < 2 ^ 32
    → (pack_block_key dev sector ≡ pack_block_key dev' sector')
      ↔ ((dev ≡ dev') × (sector % 2 ^ 32 ≡ sector' % 2 ^ 32))
pack_block_key-eq_iff dev sector dev' sector' h h' =
    let p = pack_block_key_sum dev sector h in
    let q = pack_block_key_sum dev' sector' h' in
    (λ e. (omega arith, omega arith), λ e. omega (arith, e.0, e.1))
