-- ===== src/Event/Tests.antt =====
-- Block keys at concrete devices.
use whyslow.Base.{ℕ, ◌+◌, ◌%◌, ◌^◌, ◌≡◌, ◌↔◌, refl, arith}
use whyslow.Event.Schema.{pack_block_key, unpack_block_key}
use whyslow.Event.BlockKey.{
  unpack_block_key-pack_block_key, pack_block_key-unpack_block_key, pack_block_key-eq_iff,
}

packed : pack_block_key 0x0010_3002 88213 ≡ 0x0010_3002_0001_5895
unfolding pack_block_key
packed = refl

unpack_block_key-pack_block_key_example :
    unpack_block_key (pack_block_key 0x0010_3002 (2 ^ 32 + 7))
    ≡ (0x0010_3002, (2 ^ 32 + 7) % 2 ^ 32)
unpack_block_key-pack_block_key_example =
    unpack_block_key-pack_block_key 0x0010_3002 (2 ^ 32 + 7) (omega arith)

pack_block_key-unpack_block_key_example :
    pack_block_key
      (unpack_block_key 0x0010_3002_0001_5895).0
      (unpack_block_key 0x0010_3002_0001_5895).1
    ≡ 0x0010_3002_0001_5895
pack_block_key-unpack_block_key_example =
    pack_block_key-unpack_block_key 0x0010_3002_0001_5895 (omega arith)

pack_block_key-eq_iff_example :
    (pack_block_key 8 7 ≡ pack_block_key 8 (2 ^ 32 + 7))
    ↔ ((◌≡◌ {A = ℕ} 8 8) × (7 % 2 ^ 32 ≡ (2 ^ 32 + 7) % 2 ^ 32))
pack_block_key-eq_iff_example = pack_block_key-eq_iff 8 7 8 (2 ^ 32 + 7) (omega arith) (omega arith)
