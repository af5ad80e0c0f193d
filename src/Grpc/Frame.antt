-- ===== src/Grpc/Frame.antt =====
-- connpark.go's extractPayload on the frames of proxy.go's encodeGRPCPayload, and their length field.
use tempura.Common.{
  ℕ, ◌+◌, ◌*◌, ◌^◌, ◌<◌, ◌≡◌, ◌≢◌, refl, false, [], ◌∷◌, arith, Bytes, length, drop, All, IsByte,
}
use tempura.Common.Result.{ok, err}
use tempura.Grpc.{Gzip, payload_too_short, extract_payload, frame_header, frame}

-- the number that the four length bytes of a frame spell, highest byte first
abbrev pub declared_length : Bytes → ℕ
declared_length (flag ∷ a ∷ b ∷ c ∷ d ∷ rest) = a * 2 ^ 24 + b * 2 ^ 16 + c * 2 ^ 8 + d
declared_length _ = 0

-- extractPayload gives back the payload that was framed, if it is not empty, as uncompressed.
pub extract_payload-frame :
    ⦃gzip : Gzip⦄ (payload : Bytes)
    → payload ≢ []
    → extract_payload (frame payload) ≡ ok (payload, false)
unfolding extract_payload frame drop
extract_payload-frame [] h = absurd (h refl)
extract_payload-frame (b ∷ payload) h = ground arith

-- The frame of a payload shorter than 2 ^ 32 bytes declares its length, in four bytes.
pub frame-declares :
    (payload : Bytes)
    → length payload < 2 ^ 32
    → (declared_length (frame payload) ≡ length payload)
      × All IsByte (frame_header (length payload))
unfolding frame
frame-declares payload h = omega arith

-- The frame of an empty message, which every field at its default has, is taken for too short.
pub extract_payload-frame_empty : ⦃gzip : Gzip⦄ → extract_payload (frame []) ≡ err payload_too_short
unfolding extract_payload frame
extract_payload-frame_empty = refl
