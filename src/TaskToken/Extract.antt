-- ===== src/TaskToken/Extract.antt =====
-- proxy.go, the scan of a task token, on a token that is written as protobuf fields.
use tempura.Common.{
  ℕ, suc, ◌+◌, ◌*◌, ◌^◌, ◌≤◌, ◌<◌, ◌-◌, ◌≡◌, sym, ap, ◌∙◌, List, [], ◌∷◌, ◌++◌, arith, Bytes, Text,
  length, length-append, All, append_assoc, append-nil,
}
use tempura.TaskToken.Varint.{put_varint, put_varint_pos}
use tempura.TaskToken.Fields.{
  Field, varint, fixed64, delimited, fixed32, tag, encode_field, encode_fields, IsField, IsOther,
  round-tag, varint_value_at, length_delimited_other, length_delimited_id,
}
use tempura.TaskToken.{
  found, refused, not_found, ends, goes_on, field, round, scan, extract_workflow_id,
}

-- The prefix of a token is no longer than the token.
prefix_small : (before rest : Bytes) → length (before ++ rest) < 2 ^ 62 → length before < 2 ^ 62
prefix_small before rest h = omega (arith, length-append before rest)

-- the start of a field: the tag, and behind it what the field holds
head_of_field :
    (before t body after : Bytes)
    → before ++ (t ++ body ++ after) ≡ before ++ (t ++ (body ++ after))
head_of_field before t body after = ap (λ (l : Bytes). before ++ l) (append_assoc t body after)

-- A round on any other field goes on behind it.
round_other :
    (f : Field) (before after : Bytes)
    → IsField f
    → IsOther f
    → length (before ++ (encode_field f ++ after)) < 2 ^ 62
    → round (before ++ (encode_field f ++ after)) (length before)
      ≡ goes_on (length before + length (encode_field f))
unfolding encode_field field
round_other (varint number v) before after (hn, hv) other small =
    let t = tag number 0 in
    let body = put_varint v in
    let start = prefix_small before _ small in
    rw (head_of_field before t body after) (
      round-tag before (body ++ after) number 0 start hn (omega arith)
      ∙ varint_value_at (before ++ (t ++ (body ++ after))) (before ++ t) after v
          (length before + length t) (sym (append_assoc before t (body ++ after)))
          (sym (length-append before t)) hv
      ∙ ap goes_on (omega (arith, length-append t body)))
round_other (fixed64 number b) before after (hn, hb) other small =
    let t = tag number 1 in
    let start = prefix_small before _ small in
    rw (head_of_field before t b after) (
      round-tag before (b ++ after) number 1 start hn (omega arith)
      ∙ ap goes_on (omega (arith, length-append t b)))
round_other (delimited number b) before after (hn, hb) other small =
    let t = tag number 2 in
    let size = put_varint (length b) in
    let start = prefix_small before _ small in
    let total : length before + length t + length size + length b < 2 ^ 62 = omega (
      arith,
      length-append before (t ++ (size ++ b) ++ after),
      length-append (t ++ (size ++ b)) after,
      length-append t (size ++ b),
      length-append size b,
    ) in
    rw (head_of_field before t (size ++ b) after, append_assoc size b after)
      (round-tag before (size ++ (b ++ after)) number 2 start hn (omega arith)
        ∙ length_delimited_other (before ++ (t ++ (size ++ (b ++ after)))) (before ++ t)
            (b ++ after) number (length b) (length before + length t)
            (sym (append_assoc before t (size ++ (b ++ after)))) (sym (length-append before t))
            (omega arith) other
        ∙ ap goes_on (omega (arith, length-append t (size ++ b), length-append size b)))
round_other (fixed32 number b) before after (hn, hb) other small =
    let t = tag number 5 in
    let start = prefix_small before _ small in
    rw (head_of_field before t b after) (
      round-tag before (b ++ after) number 5 start hn (omega arith)
      ∙ ap goes_on (omega (arith, length-append t b)))

-- A round on the field 2 ends with its bytes.
round_id :
    (before id after : Bytes)
    → length (before ++ (encode_field (delimited 2 id) ++ after)) < 2 ^ 62
    → round (before ++ (encode_field (delimited 2 id) ++ after)) (length before) ≡ ends (found id)
unfolding encode_field field
round_id before id after small =
    let t = tag 2 2 in
    let size = put_varint (length id) in
    let start = prefix_small before _ small in
    let token = before ++ (t ++ (size ++ (id ++ after))) in
    let same : before ++ (t ++ (size ++ id) ++ after) ≡ token =
      rw (head_of_field before t (size ++ id) after, append_assoc size id after) in
    rw same (
      round-tag before (size ++ (id ++ after)) 2 2 start (omega arith) (omega arith)
      ∙ length_delimited_id token (before ++ t) after id (length before + length t)
          (sym (append_assoc before t (size ++ (id ++ after)))) (sym (length-append before t))
          (omega (arith, ap {B = ℕ} length same)))

encode_field_pos : (f : Field) → 0 < length (encode_field f)
unfolding encode_field
encode_field_pos (varint number v) =
    omega (arith, length-append (tag number 0) (put_varint v), put_varint_pos v)
encode_field_pos (fixed64 number b) =
    omega (arith, length-append (tag number 1) b, put_varint_pos (number * 8 + 1))
encode_field_pos (delimited number b) = omega (
  arith,
  length-append (tag number 2) (put_varint (length b) ++ b),
  put_varint_pos (number * 8 + 2),
)
encode_field_pos (fixed32 number b) =
    omega (arith, length-append (tag number 5) b, put_varint_pos (number * 8 + 5))

abbrev pub IsOtherField : Field → Type 0
IsOtherField f = IsField f × IsOther f

-- One round of the scan at the start of a field.
scan_step :
    (fuel : ℕ) (f : Field) (before after : Bytes)
    → IsOtherField f
    → length (before ++ (encode_field f ++ after)) < 2 ^ 62
    → scan (suc fuel) (before ++ (encode_field f ++ after)) (length before)
      ≡ scan fuel (before ++ (encode_field f ++ after)) (length before + length (encode_field f))
unfolding scan
scan_step fuel f before after (ok, other) small = ground (
  arith,
  round_other f before after ok other small,
  length-append before (encode_field f ++ after),
  length-append (encode_field f) after,
  encode_field_pos f,
)

-- The scan passes over other fields, with one round for each.
scan_others :
    (fs : List Field) (fuel : ℕ) (before after : Bytes)
    → All IsOtherField fs
    → length (before ++ (encode_fields fs ++ after)) < 2 ^ 62
    → scan (length fs + fuel) (before ++ (encode_fields fs ++ after)) (length before)
      ≡ scan fuel
          (before ++ (encode_fields fs ++ after))
          (length before + length (encode_fields fs))
unfolding encode_fields
scan_others [] fuel before after ok small = ground arith
scan_others (f ∷ fs) fuel before after (okf, ok) small =
    let ef = encode_field f in
    let rest = encode_fields fs ++ after in
    let split : before ++ (ef ++ encode_fields fs ++ after) ≡ before ++ (ef ++ rest) =
      head_of_field before ef (encode_fields fs) after in
    let moved : (before ++ ef) ++ rest ≡ before ++ (ef ++ rest) = append_assoc before ef rest in
    let small' : length (before ++ (ef ++ rest)) < 2 ^ 62 = rw (← split) small in
    ground (
      arith,
      split,
      moved,
      scan_step (length fs + fuel) f before rest okf small',
      scan_others fs fuel (before ++ ef) after ok (rw moved small'),
      length-append before ef,
      length-append ef (encode_fields fs),
    )

length-encode_fields : (fs : List Field) → length fs ≤ length (encode_fields fs)
unfolding encode_fields
length-encode_fields [] = omega arith
length-encode_fields (f ∷ fs) = omega (
  arith,
  length-encode_fields fs,
  encode_field_pos f,
  length-append (encode_field f) (encode_fields fs),
)

scan_id :
    (fuel : ℕ) (before id after : Bytes)
    → length (before ++ (encode_field (delimited 2 id) ++ after)) < 2 ^ 62
    → scan (suc fuel) (before ++ (encode_field (delimited 2 id) ++ after)) (length before)
      ≡ found id
unfolding scan
scan_id fuel before id after small = ground (
  arith,
  round_id before id after small,
  length-append before (encode_field (delimited 2 id) ++ after),
  length-append (encode_field (delimited 2 id)) after,
  encode_field_pos (delimited 2 id),
)

scan_end :
    (fuel : ℕ) (token : Bytes)
    → length token < 2 ^ 62
    → scan (suc fuel) token (length token) ≡ refused not_found
unfolding scan
scan_end fuel token small = ground arith

-- The fuel of extract_workflow_id, after a round for each field.
scan_from_start :
    (fs : List Field) (after : Bytes)
    → All IsOtherField fs
    → length (encode_fields fs ++ after) < 2 ^ 62
    → extract_workflow_id (encode_fields fs ++ after)
      ≡ scan
          (suc (length (encode_fields fs ++ after) - length fs))
          (encode_fields fs ++ after)
          (length (encode_fields fs))
unfolding extract_workflow_id
scan_from_start fs after others small =
    let token = encode_fields fs ++ after in
    let left = length token - length fs in
    let fuel : suc (length token) ≡ length fs + suc left =
      omega (arith, length-append (encode_fields fs) after, length-encode_fields fs) in
    rw fuel
      (scan_others fs (suc left) [] after others small ∙ ap (scan (suc left) token) (omega arith))

-- In a token of encoded fields shorter than 2 ^ 62 bytes the result is the first length-delimited
-- field 2, whatever other fields stand before it and whatever bytes follow it.
pub extract_workflow_id_lem :
    (fs : List Field) (id : Text) (after : Bytes)
    → All IsOtherField fs
    → length (encode_fields fs ++ (encode_field (delimited 2 id) ++ after)) < 2 ^ 62
    → extract_workflow_id (encode_fields fs ++ (encode_field (delimited 2 id) ++ after)) ≡ found id
extract_workflow_id_lem fs id after others small =
    scan_from_start fs (encode_field (delimited 2 id) ++ after) others small
    ∙ scan_id _ (encode_fields fs) id after small

-- A token of encoded fields shorter than 2 ^ 62 bytes without a length-delimited field 2 is
-- refused as not found.
pub extract_workflow_id-not_found :
    (fs : List Field)
    → All IsOtherField fs
    → length (encode_fields fs) < 2 ^ 62
    → extract_workflow_id (encode_fields fs) ≡ refused not_found
extract_workflow_id-not_found fs others small =
    let whole = append-nil (encode_fields fs) in
    rw whole at (scan_from_start fs [] others (rw whole small))
    ∙ scan_end _ (encode_fields fs) small
