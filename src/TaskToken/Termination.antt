-- ===== src/TaskToken/Termination.antt =====
-- proxy.go, the loop of extractWorkflowIDFromTaskToken: on which tokens it ends.
use tempura.Common.{
  ℕ, zero, suc, ◌+◌, ◌*◌, ◌/◌, ◌%◌, ◌^◌, ◌-◌, ◌≤◌, ◌<◌, ◌≡◌, ◌≢◌, refl, some, [], ◌∷◌, ◌++◌, arith,
  ltb, Bytes, length, drop, length-drop, Option-cases, inl, inr, Bool-cases,
}
use tempura.TaskToken.{
  uvarint_loop, uvarint, Scan, panicked, running, Round, ends, goes_on, slice, length_delimited,
  varint_value, field, round, scan, extract_workflow_id,
}

-- Uvarint takes at least a byte, and no more than there are.
uvarint_loop_takes :
    (buf : Bytes) (i x v n : ℕ)
    → uvarint_loop buf i x ≡ some (v, n)
    → (i < n) × (n ≤ i + length buf)
unfolding uvarint_loop
uvarint_loop_takes [] i x v n h = cc
uvarint_loop_takes (b ∷ buf) i x v n h =
    ground (arith, uvarint_loop_takes buf (i + 1) (x + b % 128 * 2 ^ (7 * i)) v n)

uvarint_takes :
    (token : Bytes) (i v n : ℕ)
    → uvarint (drop i token) ≡ some (v, n)
    → (0 < n) × (n ≤ length token - i)
unfolding uvarint
uvarint_takes token i v n h =
    omega (arith, uvarint_loop_takes (drop i token) 0 0 v n h, length-drop i token)

-- no varint of the token, wherever it is read, reaches 2 ^ 62
abbrev pub IsModest : Bytes → Type 0
IsModest token = (i v n : ℕ) → uvarint (drop i token) ≡ some (v, n) → v < 2 ^ 62

-- a round ends well, or moves the index forward
abbrev Advances : ℕ → Round → Type 0
Advances i (ends result) = (result ≢ panicked) × (result ≢ running)
Advances i (goes_on j) = (i < j) × (j < 2 ^ 63)

module _ (token : Bytes) (small : length token < 2 ^ 61) (modest : IsModest token) where
  varint_value-Advances : (i : ℕ) → i ≤ length token → Advances i (varint_value token i)
  unfolding varint_value
  varint_value-Advances i h = elim (Option-cases (uvarint (drop i token))) [
    | inl e ↦ ground (arith, e)
    | inr ((v, n), e) ↦ ground (arith, e, uvarint_takes token i v n e)
  ]

  length_delimited-Advances :
      (number i : ℕ) → i ≤ length token → Advances i (length_delimited token number i)
  unfolding length_delimited slice
  length_delimited-Advances number i h = elim (Option-cases (uvarint (drop i token))) [
    | inl e ↦ ground (arith, e)
    | inr ((len, n), e) ↦ ground (arith, e, uvarint_takes token i len n e, modest i len n e)
  ]

  field-Advances :
      (number wire_type i : ℕ) → i ≤ length token → Advances i (field token number wire_type i)
  unfolding field
  field-Advances number wire_type i h =
      ground (arith, varint_value-Advances i h, length_delimited-Advances number i h)

  Advances-weaken : (i k : ℕ) (r : Round) → i ≤ k → Advances k r → Advances i r
  Advances-weaken i k (ends result) le a = a
  Advances-weaken i k (goes_on j) le a = omega arith

  round-Advances : (i : ℕ) → i < length token → Advances i (round token i)
  unfolding round
  round-Advances i h = elim (Option-cases (uvarint (drop i token))) [
    | inl e ↦ ground (arith, e)
    | inr ((t, n), e) ↦
        let takes = uvarint_takes token i t n e in
        let behind : i + n ≤ length token = omega (arith, takes) in
        let inner =
          Advances-weaken i (i + n) (field token (t / 8) (t % 8) (i + n)) (omega arith)
            (field-Advances (t / 8) (t % 8) (i + n) behind) in
        ground (arith, e, inner)
  ]

  abbrev EndsWell : Scan → Type 0
  EndsWell result = (result ≢ panicked) × (result ≢ running)

  scan_by_round :
      (fuel i : ℕ) (r : Round)
      → i < length token
      → round token i ≡ r
      → Advances i r
      → ((j : ℕ) → i < j → j < 2 ^ 63 → EndsWell (scan fuel token j))
      → EndsWell (scan (suc fuel) token i)
  unfolding scan
  scan_by_round fuel i (ends result) h e a rest = ground (arith, e)
  scan_by_round fuel i (goes_on j) h e a rest = ground (arith, e, rest j)

  scan-EndsWell : (fuel i : ℕ) → length token - i < fuel → i < 2 ^ 63 → EndsWell (scan fuel token i)
  scan-EndsWell zero i enough h = absurd (omega arith)
  scan-EndsWell (suc fuel) i enough h = elim (Bool-cases (ltb i (length token))) [
    | inr done ↦ unfold scan in ground arith
    | inl more ↦
        scan_by_round fuel i (round token i) (ground arith) refl (round-Advances i (ground arith))
          (λ j lt top. scan-EndsWell fuel j (ground arith) top)
  ]

-- On a token shorter than 2 ^ 61 bytes in which no varint reaches 2 ^ 62 the scan ends within its
-- fuel and without a panic.
pub extract_workflow_id-ends :
    (token : Bytes)
    → length token < 2 ^ 61
    → IsModest token
    → (extract_workflow_id token ≢ panicked) × (extract_workflow_id token ≢ running)
unfolding extract_workflow_id
extract_workflow_id-ends token small modest =
    scan-EndsWell token small modest (suc (length token)) 0 (omega arith) (omega arith)

-- A field 1 of 2 ^ 64 - 11 bytes: its tag takes one byte and its length ten.
abbrev pub backward_field : Bytes
backward_field = 0x0a ∷ 0xf5 ∷ 0xff ∷ 0xff ∷ 0xff ∷ 0xff ∷ 0xff ∷ 0xff ∷ 0xff ∷ 0xff ∷ 0x01 ∷ []

round-backward : (rest : Bytes) → round (backward_field ++ rest) 0 ≡ goes_on 0
unfolding round drop field length_delimited
round-backward rest = refl

-- On a token that begins with a field 1 of 2 ^ 64 - 11 bytes the scan is still running after any
-- number of rounds.
pub scan-backward : (rest : Bytes) (fuel : ℕ) → scan fuel (backward_field ++ rest) 0 ≡ running
unfolding scan
scan-backward rest zero = refl
scan-backward rest (suc fuel) = ground (arith, round-backward rest, scan-backward rest fuel)
