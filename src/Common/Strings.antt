-- ===== src/Common/Strings.antt =====
-- Go's package strings, on texts as bytes: HasPrefix, Contains, Split and Join.
use tempura.Common.Numbers.{◌==◌, if◌then◌else◌}
use tempura.Common.Lists.{Text, length}
use Prim.Native.Nat.{ℕ, zero, suc, ◌-◌}
use mathlib.Core.Path.{◌≡◌}
use mathlib.Core.Bool.{Bool, true, false, ◌&&◌, ◌||◌}
use mathlib.Core.List.{List, [], ◌∷◌, ◌++◌, append-nil, append_assoc}
use native.Mathlib.Omega.{arith}

unfoldable pub starts_with : Text → Text → Bool
starts_with [] s = true
starts_with (p ∷ ps) [] = false
starts_with (p ∷ ps) (c ∷ s) = p == c && starts_with ps s

-- strings.Contains(s, sub)
unfoldable pub contains_text : Text → Text → Bool
unfolding starts_with
contains_text [] sub = starts_with sub []
contains_text (c ∷ s) sub = starts_with sub (c ∷ s) || contains_text s sub

-- `cur` is the part so far, and `skip` counts what is left of a separator that was found.
unfoldable pub split_loop : Text → ℕ → Text → Text → List Text
unfolding starts_with
split_loop sep skip cur [] = cur ∷ []
split_loop sep (suc skip) cur (c ∷ s) = split_loop sep skip cur s
split_loop sep zero cur (c ∷ s) =
    let rest = split_loop sep (length sep - 1) [] s in
    let more = split_loop sep zero (cur ++ (c ∷ [])) s in
    if starts_with sep (c ∷ s) then cur ∷ rest else more

-- strings.Split(s, sep), for a separator that is not empty
unfoldable pub split : Text → Text → List Text
unfolding split_loop
split s sep = split_loop sep 0 [] s

-- strings.Join(parts, sep)
unfoldable pub join : List Text → Text → Text
join [] sep = []
join (p ∷ []) sep = p
join (p ∷ q ∷ ps) sep = p ++ (sep ++ join (q ∷ ps) sep)

-- A text without the separator is one part.
pub split_loop_whole :
    (sep cur s : Text) → contains_text s sep ≡ false → split_loop sep 0 cur s ≡ (cur ++ s) ∷ []
unfolding split_loop contains_text
split_loop_whole sep cur [] h = ground (arith, append-nil cur)
split_loop_whole sep cur (c ∷ s) h =
    ground (arith, split_loop_whole sep (cur ++ (c ∷ [])) s, append_assoc cur (c ∷ []) s)
