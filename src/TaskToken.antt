-- ===== src/TaskToken.antt =====
-- proxy.go, extractWorkflowIDFromTaskToken: a scan of the protobuf bytes of a Temporal task token
-- for the field 2. A Go `int` is its 64-bit pattern; one with the top bit set is negative.
pub mod Varint
pub mod Fields
pub mod Extract
pub mod Termination
use tempura.Common.{
  ℕ, zero, suc, ◌+◌, ◌-◌, ◌*◌, ◌/◌, ◌%◌, ◌^◌, Bool, true, false, Option, none, some, List, [], ◌∷◌,
  ◌||◌, ltb, leb, ◌==◌, if◌then◌else◌, Bytes, Text, length, take, drop,
}

-- encoding/binary's Uvarint on the bytes from number `i` on, with the value `x` so far; the shift
-- is 7 * i. `none` is a result n ≤ 0: the bytes end inside the number, or it overflows. The bits
-- of `x` lie below the shift, so Go's `x | b<<s` is a sum.
unfoldable pub uvarint_loop : Bytes → ℕ → ℕ → Option (ℕ × ℕ)
uvarint_loop [] i x = none
uvarint_loop (b ∷ buf) i x =
    let more = uvarint_loop buf (i + 1) (x + b % 128 * 2 ^ (7 * i)) in
    if i == 10
    then none
    else if ltb b 128
    then (if i == 9
        then (if ltb 1 b then none else some (x + b * 2 ^ (7 * i), i + 1))
        else some (x + b * 2 ^ (7 * i), i + 1))
    else more

unfoldable pub uvarint : Bytes → Option (ℕ × ℕ)
unfolding uvarint_loop
uvarint buf = uvarint_loop buf 0 0

pub data TokenError : Type 0 where
  invalid_tag invalid_value invalid_length past_end unsupported_wire not_found : TokenError

-- `panicked`: a slice bound out of range. `running`: the fuel ran out with the loop going on.
pub data Scan : Type 0 where
  found : Text → Scan
  refused : TokenError → Scan
  panicked : Scan
  running : Scan

abbrev pub int_mod : ℕ
int_mod = 2 ^ 64

abbrev pub is_negative : ℕ → Bool
is_negative i = leb (2 ^ 63) i

-- what one round of the loop does: it ends with a result, or goes on at another index
pub data Round : Type 0 where
  ends : Scan → Round
  goes_on : ℕ → Round

-- string(token[i : i+int(length)]), where `end` is the wrapped sum
unfoldable pub slice : Bytes → ℕ → ℕ → Scan
slice token i end =
    if is_negative end || ltb end i then panicked else found (take (end - i) (drop i token))

-- the `case 2` of the switch; `i` is the index behind the tag
unfoldable pub length_delimited : Bytes → ℕ → ℕ → Round
unfolding slice
length_delimited token field_num i = elim (uvarint (drop i token)) [
  | none ↦ ends (refused invalid_length)
  | some (len, n) ↦
      let start = i + n in
      let end = (start + len) % int_mod in
      if field_num == 2
      then (if is_negative end
          then ends panicked
          else if ltb (length token) end
          then ends (refused past_end)
          else ends (slice token start end))
      else goes_on end
]

unfoldable pub varint_value : Bytes → ℕ → Round
varint_value token i = elim (uvarint (drop i token)) [
  | none ↦ ends (refused invalid_value)
  | some (v, n) ↦ goes_on (i + n)
]

-- the switch on the wire type
unfoldable pub field : Bytes → ℕ → ℕ → ℕ → Round
unfolding varint_value length_delimited
field token field_num wire_type i =
    if wire_type == 0
    then varint_value token i
    else if wire_type == 1
    then goes_on (i + 8)
    else if wire_type == 2
    then length_delimited token field_num i
    else if wire_type == 5
    then goes_on (i + 4)
    else ends (refused unsupported_wire)

-- the body of the loop, for an index below the length; `token[i:]` panics on a negative one
unfoldable pub round : Bytes → ℕ → Round
unfolding field uvarint
round token i = if is_negative i then ends panicked else elim (uvarint (drop i token)) [
  | none ↦ ends (refused invalid_tag)
  | some (tag, n) ↦ field token (tag / 8) (tag % 8) (i + n)
]

-- for i < len(token) { … }
unfoldable pub scan : ℕ → Bytes → ℕ → Scan
unfolding round
scan zero token i = running
scan (suc fuel) token i =
    if is_negative i || ltb i (length token)
    then (elim (round token i) [ ends result ↦ result | goes_on j ↦ scan fuel token j ])
    else refused not_found

-- Fuel for one round a byte and the last test.
unfoldable pub extract_workflow_id : Bytes → Scan
extract_workflow_id token = scan (suc (length token)) token 0
