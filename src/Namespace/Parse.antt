-- ===== src/Namespace/Parse.antt =====
-- What parsePhysicalNamespace makes of a text, and of one that buildPhysicalNamespace wrote.
use tempura.Common.{
  ℕ, zero, suc, ◌≡◌, ◌↔◌, refl, true, false, none, some, List, [], ◌∷◌, ◌++◌, arith, Text,
  append_assoc, if◌then◌else◌, append-nil, Bool-cases, inl, inr,
}
use tempura.Common.Strings.{starts_with, contains_text, split_loop, split_loop_whole}
use tempura.Namespace.{delim, build_physical_namespace, parse_physical_namespace}

-- No delimiter begins inside the name, not even with its last byte.
abbrev pub IsPlain : Text → Type 0
IsPlain name = contains_text (name ++ (b':' ∷ [])) delim ≡ false

split_loop_after :
    (name rest cur : Text)
    → IsPlain name
    → split_loop delim 0 cur (name ++ (delim ++ rest)) ≡ (cur ++ name) ∷ split_loop delim 0 [] rest
unfolding split_loop contains_text
split_loop_after [] rest cur h = ground (arith, append-nil cur)
split_loop_after (c ∷ []) rest cur h = ground arith
split_loop_after (c ∷ d ∷ name) rest cur h = ground (
  arith,
  split_loop_after (d ∷ name) rest (cur ++ (c ∷ [])),
  append_assoc cur (c ∷ []) (d ∷ name),
)

-- The part of a text before its first delimiter.
unfoldable pub until_delim : Text → Text
until_delim [] = []
until_delim (c ∷ s) = let rest = until_delim s in if starts_with delim (c ∷ s) then [] else c ∷ rest

split_loop-cons :
    (s : Text) (skip : ℕ) (cur : Text)
    → (q : Text) × (qs : List Text) × (split_loop delim skip cur s ≡ q ∷ qs)
unfolding split_loop
split_loop-cons [] skip cur = (cur, [], refl)
split_loop-cons (c ∷ s) (suc skip) cur = split_loop-cons s skip cur
split_loop-cons (c ∷ s) zero cur = elim (Bool-cases (starts_with delim (c ∷ s))) [
  | inl here ↦ (cur, split_loop delim 1 [] s, rw here)
  | inr later ↦ rw later (split_loop-cons s 0 (cur ++ (c ∷ [])))
]

split_loop_head :
    (s cur : Text) → (qs : List Text) × (split_loop delim 0 cur s ≡ (cur ++ until_delim s) ∷ qs)
unfolding split_loop until_delim
split_loop_head [] cur = ([], ground (arith, append-nil cur))
split_loop_head (c ∷ s) cur = elim (Bool-cases (starts_with delim (c ∷ s))) [
  | inl here ↦ (split_loop delim 1 [] s, rw (here, append-nil))
  | inr later ↦
      let (qs, e) = split_loop_head s (cur ++ (c ∷ [])) in (qs, rw (later, e, append_assoc))
]

split_loop_two :
    (s cur : Text)
    → contains_text s delim ≡ true
    → (p : Text) × (q : Text) × (qs : List Text) × (split_loop delim 0 cur s ≡ p ∷ q ∷ qs)
unfolding split_loop contains_text
split_loop_two [] cur h = cc
split_loop_two (c ∷ s) cur h = elim (Bool-cases (starts_with delim (c ∷ s))) [
  | inl here ↦ let (q, qs, e) = split_loop-cons s 1 [] in (cur, q, qs, rw (here, e))
  | inr later ↦ rw later (split_loop_two s (cur ++ (c ∷ [])) (rw later at h))
]

until_delim_lem : (s : Text) → contains_text s delim ≡ false → until_delim s ≡ s
unfolding until_delim contains_text
until_delim_lem [] h = refl
until_delim_lem (c ∷ s) h = ground (arith, until_delim_lem s)

-- After a plain name parsePhysicalNamespace gives the address only up to its first delimiter.
pub parse-build_until :
    (name address : Text)
    → IsPlain name
    → parse_physical_namespace (build_physical_namespace name address)
      ≡ some (record { name = name; address = until_delim address })
unfolding parse_physical_namespace build_physical_namespace
parse-build_until name address plain =
    let (qs, e) = split_loop_head address [] in rw (split_loop_after name address [] plain, e)

-- parsePhysicalNamespace gives back the name and the address of which buildPhysicalNamespace made
-- a text, if the name is plain and no delimiter is in the address.
pub parse-build :
    (name address : Text)
    → IsPlain name
    → contains_text address delim ≡ false
    → parse_physical_namespace (build_physical_namespace name address)
      ≡ some (record { name = name; address = address })
parse-build name address plain whole =
    rw (parse-build_until name address plain, until_delim_lem address whole)

-- parsePhysicalNamespace panics exactly on the texts without a delimiter.
pub parse_panics :
    (physical_namespace : Text)
    → (parse_physical_namespace physical_namespace ≡ none)
      ↔ (contains_text physical_namespace delim ≡ false)
unfolding parse_physical_namespace
parse_panics s = (
  λ e. elim (Bool-cases (contains_text s delim)) [
    | inl has ↦ let (p, q, qs, e') = split_loop_two s [] has in cc (rw e' at e)
    | inr lacks ↦ lacks
  ],
  λ lacks. rw (split_loop_whole delim [] s lacks),
)
