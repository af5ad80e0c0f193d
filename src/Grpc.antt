-- ===== src/Grpc.antt =====
-- The gRPC frame around a protobuf payload: connpark.go's extractPayload and proxy.go's
-- encodeGRPCPayload. The decompression of compress/gzip is a parameter.
pub mod Frame
use tempura.Common.{
  ℕ, ◌/◌, ◌%◌, ◌^◌, Bool, true, false, List, [], ◌∷◌, ◌++◌, Bytes, length, drop, leb, ◌==◌,
  if◌then◌else◌,
}
use tempura.Common.Result.{Result, ok, err}
use tempura.Http.{Request, forget_length}

-- gzip.NewReader and io.ReadAll: no gzip header, an error after some bytes, or the whole text
pub data Unzipped : Type 0 where
  bad_header : Unzipped
  broken : Bytes → Unzipped
  whole : Bytes → Unzipped

pub record Gzip : Type 0 where
  pub gunzip : Bytes → Unzipped

pub data ProxyError : Type 0 where
  payload_too_short gzip_reader gzip_body bad_message unencodable_message : ProxyError
  namespace_not_found no_physical_namespaces all_failed transport read_body : ProxyError

-- the flag byte of a frame that is longer than its header
abbrev pub first_byte : Bytes → ℕ
first_byte [] = 0
first_byte (b ∷ rest) = b

unfoldable pub payload_of : Unzipped → Result ProxyError (Bytes × Bool)
payload_of bad_header = err gzip_reader
payload_of (broken some_bytes) = err gzip_body
payload_of (whole plain) = ok (plain, true)

module _ ⦃gzip : Gzip⦄ where
  unfoldable pub extract_payload : Bytes → Result ProxyError (Bytes × Bool)
  unfolding payload_of
  extract_payload body_bytes =
      if leb (length body_bytes) 5
      then err payload_too_short
      else if first_byte body_bytes == 1
      then payload_of (gzip.gunzip (drop 5 body_bytes))
      else ok (drop 5 body_bytes, false)

-- `byte(n >> k)` keeps the low eight bits
unfoldable pub frame_header : ℕ → Bytes
frame_header n = 0 ∷ n / 2 ^ 24 % 256 ∷ n / 2 ^ 16 % 256 ∷ n / 2 ^ 8 % 256 ∷ n % 256 ∷ []

unfoldable pub frame : Bytes → Bytes
unfolding frame_header
frame payload = frame_header (length payload) ++ payload

-- the new body, and what is done to the request
unfoldable pub encode_grpc_payload : Bytes → Request → Bytes × Request
encode_grpc_payload final_payload r = (frame final_payload, forget_length r)
