-- ===== src/Ring/Search.antt =====
-- `sort.Search(n, f)`: binary search for the smallest index in [0, n) at which `f` holds.
use tempura.Common.{
  ℕ, zero, suc, ◌+◌, ◌-◌, ◌/◌, ◌≤◌, ◌<◌, ◌≡◌, Bool, true, false, arith, ltb, if◌then◌else◌,
  Bool-cases, inl, inr,
}

-- for i < j { h := (i + j) >> 1; if !f(h) { i = h + 1 } else { j = h } }
unfoldable pub search_loop : ℕ → (ℕ → Bool) → ℕ → ℕ → ℕ
search_loop zero f i j = i
search_loop (suc fuel) f i j =
    let h = (i + j) / 2 in
    let right = search_loop fuel f (h + 1) j in
    let left = search_loop fuel f i h in
    if ltb i j then (elim (f h) [ true ↦ left | false ↦ right ]) else i

-- Each round shortens the interval, so `n` rounds are enough.
unfoldable pub sort_search : ℕ → (ℕ → Bool) → ℕ
unfolding search_loop
sort_search n f = search_loop n f 0 n

-- `r` splits [0, n) into a part where the test fails and one that begins with a hit.
pub record Splits (f : ℕ → Bool) (n r : ℕ) : Type 0 where
  pub within : r ≤ n
  pub before : (k : ℕ) → k < r → f k ≡ false
  pub at : r < n → f r ≡ true

module _ (f : ℕ → Bool) (n : ℕ)
    (monotone : (i j : ℕ) → i ≤ j → j < n → f i ≡ true → f j ≡ true) where
  false_below : (h k : ℕ) → h < n → f h ≡ false → k ≤ h → f k ≡ false
  false_below h k lt miss le = elim (Bool-cases (f k)) [
    | inl hit ↦ cc (monotone k h le lt hit)
    | inr e ↦ e
  ]

  search_loop-Splits :
      (fuel i j : ℕ)
      → j - i ≤ fuel
      → i ≤ j
      → j ≤ n
      → ((k : ℕ) → k < i → f k ≡ false)
      → (j < n → f j ≡ true)
      → Splits f n (search_loop fuel f i j)
  unfolding search_loop
  search_loop-Splits zero i j size order top low high = record {
    within = omega arith;
    before = low;
    at = λ h. ground (arith, high (omega arith));
  }
  search_loop-Splits (suc fuel) i j size order top low high =
      let h = (i + j) / 2 in
      elim (Bool-cases (ltb i j)) [
        | inr done ↦ rw done (record {
          within = ground arith;
          before = low;
          at = λ h. ground (arith, high (ground arith));
        })
        | inl more ↦ elim (Bool-cases (f h)) [
          | inl hit ↦
              rw (more, hit)
                (search_loop-Splits fuel i h (ground arith) (ground arith) (ground arith) low
                  (λ _. hit))
          | inr miss ↦
              rw (more, miss)
                (search_loop-Splits fuel (h + 1) j (ground arith) (ground arith) top
                  (λ k lt. false_below h k (ground arith) miss (ground arith)) high)
        ]
      ]

  pub sort_search-Splits : Splits f n (sort_search n f)
  unfolding sort_search
  sort_search-Splits =
      search_loop-Splits n 0 n (omega arith) (omega arith) (omega arith)
        (λ k lt. absurd (omega arith)) (λ lt. absurd (omega arith))
