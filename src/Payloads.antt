-- ===== src/Payloads.antt =====
-- payload.go: random payloads. `draws` is what rand.N returns, call by call; a function that draws
-- takes the number of the next call and returns it moved on.
pub mod Charset
use tempura.Common.{ℕ, zero, suc, ◌+◌, List, [], ◌∷◌, Text, codes, get_or}
use tempura.Resolver.{Payload}

abbrev pub charset : Text
charset = codes "abcdefghijklmnopqrstuvwxyzABCDEFGHIJKLMNOPQRSTUVWXYZ0123456789"

module _ (draws : ℕ → ℕ) where
  -- for i := range b { b[i] = charset[rand.N(len(charset))] }
  unfoldable pub fill : ℕ → ℕ → Text
  fill zero next = []
  fill (suc left) next = get_or charset (draws next) 0 ∷ fill left (next + 1)

  unfoldable pub generate_random_string : ℕ → ℕ → Text × ℕ
  unfolding fill
  generate_random_string length next = (fill length next, next + length)

  unfoldable pub make_payload : Text → ℕ → Payload × ℕ
  unfolding generate_random_string
  make_payload v_namespace next =
      let (workflow_id, next') = generate_random_string 128 next in
      (record { workflow_id = workflow_id; virtual_namespace = v_namespace }, next')

  unfoldable pub make_payloads : ℕ → Text → ℕ → List Payload × ℕ
  unfolding make_payload
  make_payloads zero v_namespace next = ([], next)
  make_payloads (suc size) v_namespace next =
      let (payload, next') = make_payload v_namespace next in
      let (payloads, next'') = make_payloads size v_namespace next' in (payload ∷ payloads, next'')
