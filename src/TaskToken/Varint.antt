-- ===== src/TaskToken/Varint.antt =====
-- encoding/binary's Uvarint on varints as protobuf writes them.
use native.Mathlib.Nat.{div-add-mod}
use native.Mathlib.Numerals.{towards_suc}
use tempura.Common.{
  ℕ, zero, suc, ◌+◌, ◌*◌, ◌/◌, ◌%◌, ◌^◌, ◌≤◌, ◌<◌, ◌≡◌, ap, ◌∙◌, some, [], ◌∷◌, ◌++◌, arith, ltb,
  if◌then◌else◌, Bytes, length, Bool-cases, inl, inr,
}
use tempura.TaskToken.{uvarint_loop, uvarint}

-- The groups of seven bits, lowest first, at most `k + 1` of them.
unfoldable pub varint_bytes : ℕ → ℕ → Bytes
varint_bytes zero v = v ∷ []
varint_bytes (suc k) v =
    let rest = varint_bytes k (v / 128) in if ltb v 128 then v ∷ [] else (v % 128 + 128) ∷ rest

unfoldable pub put_varint : ℕ → Bytes
put_varint v = varint_bytes 9 v

next_shift : (i : ℕ) → 2 ^ (7 * (i + 1)) ≡ 128 * 2 ^ (7 * i)
next_shift i =
    ap (λ (n : ℕ). 2 ^ n) (let e : 7 * (i + 1) ≡ 7 * i + 7 = omega arith in e)
    ∙ simp towards_suc (omega arith)

split_group : (w i : ℕ) → w * 2 ^ (7 * i) ≡ w % 128 * 2 ^ (7 * i) + w / 128 * 2 ^ (7 * (i + 1))
split_group w i = omega (
  arith,
  ap (λ (t : ℕ). t * 2 ^ (7 * i)) (div-add-mod w 128),
  ap (λ (t : ℕ). w / 128 * t) (next_shift i),
)

-- the tenth byte holds one bit
last_fits : (w i x : ℕ) → x + w * 2 ^ (7 * i) < 2 ^ 64 → i ≡ 9 → w ≤ 1
last_fits w i x fits e = let at : x + w * 2 ^ (7 * 9) < 2 ^ 64 = rw e at fits in omega arith

last_group :
    (w i x : ℕ) (rest : Bytes)
    → w < 128
    → i ≤ 9
    → x + w * 2 ^ (7 * i) < 2 ^ 64
    → uvarint_loop (w ∷ rest) i x ≡ some (x + w * 2 ^ (7 * i), i + 1)
unfolding uvarint_loop
last_group w i x rest hw hi fits = ground (arith, last_fits w i x fits)

inner_group :
    (g i x : ℕ) (rest : Bytes)
    → g < 128
    → i ≤ 9
    → uvarint_loop ((g + 128) ∷ rest) i x ≡ uvarint_loop rest (i + 1) (x + g * 2 ^ (7 * i))
unfolding uvarint_loop
inner_group g i x rest hg hi = let low : (g + 128) % 128 ≡ g = omega arith in rw low (ground arith)

uvarint_loop-varint_bytes :
    (k w i x : ℕ) (rest : Bytes)
    → w < 128 ^ suc k
    → i + k ≤ 9
    → x + w * 2 ^ (7 * i) < 2 ^ 64
    → uvarint_loop (varint_bytes k w ++ rest) i x
      ≡ some (x + w * 2 ^ (7 * i), i + length (varint_bytes k w))
unfolding varint_bytes
uvarint_loop-varint_bytes zero w i x rest hw hi fits =
    last_group w i x rest (omega arith) (omega arith) fits
uvarint_loop-varint_bytes (suc k) w i x rest hw hi fits = elim (Bool-cases (ltb w 128)) [
  | inl last ↦ rw last (last_group w i x rest (ground arith) (omega arith) fits)
  | inr more ↦ rw more (
      inner_group (w % 128) i x (varint_bytes k (w / 128) ++ rest) (omega arith) (omega arith)
      ∙ uvarint_loop-varint_bytes k (w / 128) (i + 1) (x + w % 128 * 2 ^ (7 * i)) rest (omega arith)
          (omega arith) (omega (arith, split_group w i))
      ∙ ground (arith, split_group w i))
]

pub uvarint-put_varint :
    (v : ℕ) (rest : Bytes)
    → v < 2 ^ 64
    → uvarint (put_varint v ++ rest) ≡ some (v, length (put_varint v))
unfolding uvarint put_varint
uvarint-put_varint v rest h =
    uvarint_loop-varint_bytes 9 v 0 0 rest (omega arith) (omega arith) (omega arith) ∙ ground arith

varint_bytes_pos : (k v : ℕ) → 0 < length (varint_bytes k v)
unfolding varint_bytes
varint_bytes_pos zero v = omega arith
varint_bytes_pos (suc k) v = ground arith

pub put_varint_pos : (v : ℕ) → 0 < length (put_varint v)
unfolding put_varint
put_varint_pos v = varint_bytes_pos 9 v
