-- ===== src/Payloads/Charset.antt =====
-- payload.go: what the random payloads are made of.
use tempura.Common.{
  ℕ, zero, suc, ◌+◌, ◌<◌, ◌≡◌, true, refl, ap, Text, length, All, contains, contains-get_or,
}
use tempura.Resolver.{Payload}
use tempura.Payloads.{charset, fill, generate_random_string, make_payload, make_payloads}

abbrev pub InCharset : ℕ → Type 0
InCharset c = contains charset c ≡ true

-- a payload of the load generator
abbrev pub IsRandom : Text → Payload → Type 0
IsRandom v_namespace payload =
    (length payload.workflow_id ≡ 128)
    × All InCharset payload.workflow_id
    × (payload.virtual_namespace ≡ v_namespace)

module _ (draws : ℕ → ℕ) (in_range : (i : ℕ) → draws i < length charset) where
  fill-InCharset : (left next : ℕ) → All InCharset (fill draws left next)
  unfolding fill
  fill-InCharset zero next = tt
  fill-InCharset (suc left) next =
      (contains-get_or charset (draws next) 0 (in_range next), fill-InCharset left (next + 1))

  length-fill : (left next : ℕ) → length (fill draws left next) ≡ left
  unfolding fill
  length-fill zero next = refl
  length-fill (suc left) next = ap suc (length-fill left (next + 1))

  make_payload-IsRandom :
      (v_namespace : Text) (next : ℕ) → IsRandom v_namespace (make_payload draws v_namespace next).0
  unfolding make_payload generate_random_string
  make_payload-IsRandom v_namespace next = (length-fill 128 next, fill-InCharset 128 next, refl)

  -- There are as many payloads as were asked for, whatever rand.N draws within its bound.
  pub make_payloads-IsRandom :
      (size : ℕ) (v_namespace : Text) (next : ℕ)
      → (length (make_payloads draws size v_namespace next).0 ≡ size)
        × All (IsRandom v_namespace) (make_payloads draws size v_namespace next).0
  unfolding make_payloads
  make_payloads-IsRandom zero v_namespace next = (refl, tt)
  make_payloads-IsRandom (suc size) v_namespace next =
      let (count, random) =
        make_payloads-IsRandom size v_namespace (make_payload draws v_namespace next).1 in
      (ap suc count, (make_payload-IsRandom v_namespace next, random))
