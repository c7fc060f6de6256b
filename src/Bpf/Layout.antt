-- ===== src/Bpf/Layout.antt =====
-- whyslow-cli/src/bpf.rs: `decode_event`, and the memory layout of an event that it copies
-- (`repr(C)` of whyslow-common/src/lib.rs on a little-endian machine with 64-bit words).
use whyslow.Base.{
  ℕ, zero, suc, ◌+◌, ◌*◌, ◌/◌, ◌%◌, ◌^◌, ◌<◌, ◌≡◌, ◌≢◌, refl, ap, ◌∙◌, true, Option, none, some,
  List, [], ◌∷◌, ◌++◌, arith, ◌==◌, if◌then◌else◌, length, length-append, take, drop,
}
use whyslow.Event.Schema.{Event, InRange}

-- The low `n` bytes of a number, the lowest first.
unfoldable pub le_bytes : ℕ → ℕ → List ℕ
le_bytes zero x = []
le_bytes (suc n) x = x % 256 ∷ le_bytes n (x / 256)

unfoldable pub of_le : List ℕ → ℕ
of_le [] = 0
of_le (b ∷ bs) = b + of_le bs * 256

-- `size_of::<Event>()`: 52 bytes of fields, rounded up to the alignment of a `u64`.
abbrev pub size_of_event : ℕ
size_of_event = 56

-- `n` bytes at an offset.
abbrev pub field : ℕ → ℕ → List ℕ → List ℕ
field offset n item = take n (drop offset item)

unfoldable pub decode_event : List ℕ → Option Event
decode_event item =
    if length item == size_of_event
    then some (record {
      timestamp_ns = of_le (field 0 8 item);
      duration_ns = of_le (field 8 8 item);
      key = of_le (field 16 8 item);
      pid = of_le (field 24 4 item);
      tid = of_le (field 28 4 item);
      event_type = of_le (field 32 1 item);
      pad = field 33 3 item;
      comm = field 36 16 item;
    })
    else none

-- The bytes of an event in memory. `gap` is the padding behind the fields, of any value.
unfoldable pub in_memory : Event → List ℕ → List ℕ
in_memory ev gap =
    le_bytes 8 ev.timestamp_ns
    ++ le_bytes 8 ev.duration_ns
    ++ le_bytes 8 ev.key
    ++ le_bytes 4 ev.pid
    ++ le_bytes 4 ev.tid
    ++ le_bytes 1 ev.event_type
    ++ (ev.pad ++ (ev.comm ++ gap))

module _ {A : Type 0} where
  take-exact : (n : ℕ) (xs ys : List A) → length xs ≡ n → take n (xs ++ ys) ≡ xs
  take-exact zero [] ys h = refl
  take-exact zero (x ∷ xs) ys h = absurd (omega arith)
  take-exact (suc n) [] ys h = absurd (omega arith)
  take-exact (suc n) (x ∷ xs) ys h = ap (◌∷◌ x) (take-exact n xs ys (omega arith))

  drop-exact : (n : ℕ) (xs ys : List A) → length xs ≡ n → drop n (xs ++ ys) ≡ ys
  drop-exact zero [] ys h = refl
  drop-exact zero (x ∷ xs) ys h = absurd (omega arith)
  drop-exact (suc n) [] ys h = absurd (omega arith)
  drop-exact (suc n) (x ∷ xs) ys h = drop-exact n xs ys (omega arith)

of_le-le_bytes_8 : (x : ℕ) → x < 2 ^ 64 → of_le (le_bytes 8 x) ≡ x
unfolding of_le le_bytes
of_le-le_bytes_8 x h = omega arith

of_le-le_bytes_4 : (x : ℕ) → x < 2 ^ 32 → of_le (le_bytes 4 x) ≡ x
unfolding of_le le_bytes
of_le-le_bytes_4 x h = omega arith

of_le-le_bytes_1 : (x : ℕ) → x < 2 ^ 8 → of_le (le_bytes 1 x) ≡ x
unfolding of_le le_bytes
of_le-le_bytes_1 x h = omega arith

length-in_memory :
    (ev : Event) (gap : List ℕ)
    → InRange ev
    → length gap ≡ 4
    → (length (in_memory ev gap) == size_of_event) ≡ true
unfolding in_memory le_bytes
length-in_memory ev gap r h =
    let pad = r.pad_length in
    let comm = r.comm_length in
    ground (arith, length-append ev.pad (ev.comm ++ gap), length-append ev.comm gap)

-- Decoding the bytes in memory of an event whose fields are in the ranges of their types gives the
-- event back, whatever the four bytes of padding behind the fields are.
pub decode_event-in_memory :
    (ev : Event) (gap : List ℕ)
    → InRange ev
    → length gap ≡ 4
    → decode_event (in_memory ev gap) ≡ some ev
unfolding decode_event in_memory le_bytes
decode_event-in_memory ev gap r h =
    let pad_part : field 33 3 (in_memory ev gap) ≡ ev.pad =
      take-exact 3 ev.pad (ev.comm ++ gap) r.pad_length in
    let comm_part : field 36 16 (in_memory ev gap) ≡ ev.comm =
      ap (take 16) (drop-exact 3 ev.pad (ev.comm ++ gap) r.pad_length)
      ∙ take-exact 16 ev.comm gap r.comm_length in
    rw (
      length-in_memory ev gap r h,
      of_le-le_bytes_8 ev.timestamp_ns r.timestamp_ns_fits,
      of_le-le_bytes_8 ev.duration_ns r.duration_ns_fits,
      of_le-le_bytes_8 ev.key r.key_fits,
      of_le-le_bytes_4 ev.pid r.pid_fits,
      of_le-le_bytes_4 ev.tid r.tid_fits,
      of_le-le_bytes_1 ev.event_type r.event_type_fits,
      pad_part,
      comm_part,
    )

-- An item of another size than an event's is not decoded.
pub decode_event-other_size :
    (item : List ℕ) → length item ≢ size_of_event → decode_event item ≡ none
unfolding decode_event
decode_event-other_size item ne = ground arith
