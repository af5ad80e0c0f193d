-- ===== src/Tests/Tokens.antt =====
-- Task tokens and frames at concrete inputs.
use tempura.Common.{
  ℕ, zero, suc, ◌<◌, ◌≡◌, ◌≢◌, false, some, [], ◌∷◌, ◌++◌, List, arith, Text, Bytes, codes, All,
  drop,
}
use tempura.Common.Result.{ok}
use tempura.TaskToken.{uvarint, uvarint_loop, found, panicked, running, scan, extract_workflow_id}
use tempura.TaskToken.Varint.{varint_bytes, put_varint}
use tempura.TaskToken.Fields.{Field, varint, delimited, encode_field, encode_fields}
use tempura.TaskToken.Extract.{IsOtherField, extract_workflow_id_lem}
use tempura.TaskToken.Termination.{
  IsModest, extract_workflow_id-ends, backward_field, scan-backward,
}
use tempura.Grpc.{extract_payload, frame}
use tempura.Grpc.Frame.{extract_payload-frame}
use tempura.Tests.Codecs.{no_gzip}

abbrev order : Text
order = codes "order-17"

-- the fields in front of the workflow id
abbrev others : List Field
others = delimited 1 (codes "shop") ∷ varint 9 300 ∷ []

others-IsOtherField : All IsOtherField others
others-IsOtherField =
    (((omega arith, omega arith), λ e. omega (arith, e)), (((omega arith, omega arith), tt), tt))

extract_workflow_id_lem_example :
    extract_workflow_id (encode_fields others ++ (encode_field (delimited 2 order) ++ (1 ∷ [])))
    ≡ found order
unfolding encode_fields encode_field put_varint varint_bytes
extract_workflow_id_lem_example =
    extract_workflow_id_lem others order (1 ∷ []) others-IsOtherField (omega arith)

uvarint_ascii : (b : ℕ) (rest : Bytes) → b < 128 → uvarint (b ∷ rest) ≡ some (b, 1)
unfolding uvarint uvarint_loop
uvarint_ascii b rest h = ground arith

uvarint_nothing : (i v n : ℕ) → uvarint (drop i []) ≢ some (v, n)
unfolding uvarint uvarint_loop drop
uvarint_nothing zero v n e = cc e
uvarint_nothing (suc i) v n e = cc e

-- Every byte of such a token is a varint of its own.
ascii-IsModest : (token : Bytes) → All (λ b. b < 128) token → IsModest token
unfolding drop
ascii-IsModest [] small i v n e = absurd (uvarint_nothing i v n e)
ascii-IsModest (b ∷ token) (hb, small) zero v n e = ground (arith, e, uvarint_ascii b token hb)
ascii-IsModest (b ∷ token) (hb, small) (suc i) v n e = ascii-IsModest token small i v n e

-- the workflow id in field 2
abbrev ascii_token : Bytes
ascii_token = 0x12 ∷ 8 ∷ order

extract_workflow_id-ends_example :
    (extract_workflow_id ascii_token ≢ panicked) × (extract_workflow_id ascii_token ≢ running)
extract_workflow_id-ends_example =
    extract_workflow_id-ends ascii_token (omega arith) (ascii-IsModest ascii_token (ground arith))

scan-backward_example : scan 12 (backward_field ++ []) 0 ≡ running
scan-backward_example = scan-backward [] 12

extract_payload-frame_example : extract_payload (frame order) ≡ ok (order, false)
extract_payload-frame_example = extract_payload-frame order (λ e. cc e)
