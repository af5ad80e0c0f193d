-- ===== src/TaskToken/Fields.antt =====
-- proxy.go, the scan of a task token, on single fields that are written as protobuf.
use tempura.Common.{
  ℕ, ◌+◌, ◌*◌, ◌^◌, ◌-◌, ◌≤◌, ◌<◌, ◌≡◌, ◌≢◌, refl, some, List, [], ◌∷◌, ◌++◌, arith, Bytes, length,
  length-append, take, drop, drop-append, take-append, append_assoc,
}
use tempura.TaskToken.Varint.{put_varint, uvarint-put_varint}
use tempura.TaskToken.{
  uvarint, found, ends, goes_on, slice, length_delimited, varint_value, field, round,
}

-- The four wire types that the scan knows, each with its field number.
pub data Field : Type 0 where
  varint : ℕ → ℕ → Field
  fixed64 : ℕ → Bytes → Field
  delimited : ℕ → Bytes → Field
  fixed32 : ℕ → Bytes → Field

-- the tag is the field number with the wire type in its three low bits
abbrev pub tag : ℕ → ℕ → Bytes
tag number wire_type = put_varint (number * 8 + wire_type)

unfoldable pub encode_field : Field → Bytes
encode_field (varint number v) = tag number 0 ++ put_varint v
encode_field (fixed64 number b) = tag number 1 ++ b
encode_field (delimited number b) = tag number 2 ++ (put_varint (length b) ++ b)
encode_field (fixed32 number b) = tag number 5 ++ b

-- within the ranges of protobuf: field numbers below 2 ^ 29, values below 2 ^ 64, fixed widths
abbrev pub IsField : Field → Type 0
IsField (varint number v) = (number < 2 ^ 29) × (v < 2 ^ 64)
IsField (fixed64 number b) = (number < 2 ^ 29) × (length b ≡ 8)
IsField (delimited number b) = (number < 2 ^ 29) × (length b < 2 ^ 62)
IsField (fixed32 number b) = (number < 2 ^ 29) × (length b ≡ 4)

-- not the field that the scan looks for
abbrev pub IsOther : Field → Type 0
IsOther (varint number v) = Unit {0}
IsOther (fixed64 number b) = Unit {0}
IsOther (delimited number b) = number ≢ 2
IsOther (fixed32 number b) = Unit {0}

unfoldable pub encode_fields : List Field → Bytes
encode_fields [] = []
encode_fields (f ∷ fs) = encode_field f ++ encode_fields fs

-- Reading a varint at the end of a prefix.
uvarint_at :
    (before after : Bytes) (v i : ℕ)
    → i ≡ length before
    → v < 2 ^ 64
    → uvarint (drop i (before ++ (put_varint v ++ after))) ≡ some (v, length (put_varint v))
uvarint_at before after v i e h = rw (e, drop-append) (uvarint-put_varint v after h)

-- One round at the start of a field is the switch on its wire type, behind the tag.
pub round-tag :
    (before after : Bytes) (number wire_type : ℕ)
    → length before < 2 ^ 62
    → number < 2 ^ 29
    → wire_type < 8
    → round (before ++ (tag number wire_type ++ after)) (length before)
      ≡ field
          (before ++ (tag number wire_type ++ after))
          number
          wire_type
          (length before + length (tag number wire_type))
unfolding round
round-tag before after number wire_type small hn hw =
    rw (uvarint_at before after (number * 8 + wire_type) (length before) refl (omega arith))
      (ground arith)

read_at :
    (token before after : Bytes) (v i : ℕ)
    → token ≡ before ++ (put_varint v ++ after)
    → i ≡ length before
    → v < 2 ^ 64
    → uvarint (drop i token) ≡ some (v, length (put_varint v))
read_at token before after v i et ei h = rw et (uvarint_at before after v i ei h)

pub varint_value_at :
    (token before after : Bytes) (v i : ℕ)
    → token ≡ before ++ (put_varint v ++ after)
    → i ≡ length before
    → v < 2 ^ 64
    → varint_value token i ≡ goes_on (i + length (put_varint v))
unfolding varint_value
varint_value_at token before after v i et ei h =
    rw (read_at token before after v i et ei h, varint_value)

pub length_delimited_other :
    (token before after : Bytes) (number len i : ℕ)
    → token ≡ before ++ (put_varint len ++ after)
    → i ≡ length before
    → i + length (put_varint len) + len < 2 ^ 63
    → number ≢ 2
    → length_delimited token number i ≡ goes_on (i + length (put_varint len) + len)
unfolding length_delimited
length_delimited_other token before after number len i et ei small other =
    ground (arith, read_at token before after len i et ei (omega arith))

pub length_delimited_id :
    (token before after id : Bytes) (i : ℕ)
    → token ≡ before ++ (put_varint (length id) ++ (id ++ after))
    → i ≡ length before
    → length token < 2 ^ 63
    → length_delimited token 2 i ≡ ends (found id)
unfolding length_delimited slice
length_delimited_id token before after id i et ei small =
    let value = put_varint (length id) in
    let size : length token ≡ length before + length value + length id + length after =
      rw (et, length-append, length-append, length-append) (omega arith) in
    let cut : take (length id) (drop (i + length value) token) ≡ id =
      rw (et, ei, ← append_assoc, ← length-append, drop-append, take-append) in
    let read = read_at token before (id ++ after) (length id) i et ei (omega arith) in
    let bounds : (i + length value + length id ≤ length token)
        × (i + length value + length id - (i + length value) ≡ length id) =
      omega arith in
    ground (arith, read, cut, size, bounds.1)
