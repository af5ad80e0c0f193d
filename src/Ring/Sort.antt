-- ===== src/Ring/Sort.antt =====
-- `sort.Slice` on a slice of uint32 by `<`: equal numbers are the same value, so the result is the
-- one ascending arrangement of the elements, here by insertion.
use tempura.Common.{
  ℕ, zero, suc, ◌≤◌, ◌<◌, ◌≡◌, refl, List, [], ◌∷◌, arith, leb, if◌then◌else◌, length, All, get_or,
  contains, Bool, ◌&&◌,
}

unfoldable pub insert_sorted : ℕ → List ℕ → List ℕ
insert_sorted x [] = x ∷ []
insert_sorted x (y ∷ ys) = if leb x y then x ∷ y ∷ ys else y ∷ insert_sorted x ys

unfoldable pub sort_slice : List ℕ → List ℕ
unfolding insert_sorted
sort_slice [] = []
sort_slice (x ∷ xs) = insert_sorted x (sort_slice xs)

-- the elements that pass a test, as a loop with `append` collects them
unfoldable pub keep : (ℕ → Bool) → List ℕ → List ℕ
keep p [] = []
keep p (x ∷ xs) = let rest = keep p xs in if p x then x ∷ rest else rest

-- ascending: no element is above a later one
abbrev pub IsSorted : List ℕ → Type 0
IsSorted [] = Unit {0}
IsSorted (x ∷ xs) = All (λ y. x ≤ y) xs × IsSorted xs

All-insert_sorted :
    (b x : ℕ) (l : List ℕ) → b ≤ x → All (λ y. b ≤ y) l → All (λ y. b ≤ y) (insert_sorted x l)
unfolding insert_sorted
All-insert_sorted b x [] h a = ground arith
All-insert_sorted b x (y ∷ ys) h a = ground (arith, All-insert_sorted b x ys)

All-keep : (b : ℕ) (p : ℕ → Bool) (l : List ℕ) → All (λ y. b ≤ y) l → All (λ y. b ≤ y) (keep p l)
unfolding keep
All-keep b p [] a = tt
All-keep b p (y ∷ ys) a = ground (arith, All-keep b p ys)

All-le_trans : (a b : ℕ) (l : List ℕ) → a ≤ b → All (λ y. b ≤ y) l → All (λ y. a ≤ y) l
All-le_trans a b [] h p = tt
All-le_trans a b (y ∷ ys) h p = (omega arith, All-le_trans a b ys h p.1)

insert_sorted-IsSorted : (x : ℕ) (l : List ℕ) → IsSorted l → IsSorted (insert_sorted x l)
unfolding insert_sorted
insert_sorted-IsSorted x [] s = ground arith
insert_sorted-IsSorted x (y ∷ ys) s =
    ground (arith, All-le_trans x y ys, insert_sorted-IsSorted x ys, All-insert_sorted y x ys)

pub sort_slice-IsSorted : (l : List ℕ) → IsSorted (sort_slice l)
unfolding sort_slice
sort_slice-IsSorted [] = tt
sort_slice-IsSorted (x ∷ xs) = insert_sorted-IsSorted x (sort_slice xs) (sort_slice-IsSorted xs)

contains-insert_sorted :
    (x y : ℕ) (l : List ℕ) → contains (insert_sorted x l) y ≡ contains (x ∷ l) y
unfolding insert_sorted contains
contains-insert_sorted x y [] = refl
contains-insert_sorted x y (z ∷ zs) = ground (arith, contains-insert_sorted x y zs)

pub contains-sort_slice : (l : List ℕ) (y : ℕ) → contains (sort_slice l) y ≡ contains l y
unfolding sort_slice contains
contains-sort_slice [] y = refl
contains-sort_slice (x ∷ xs) y =
    ground (arith, contains-insert_sorted x y (sort_slice xs), contains-sort_slice xs y)

length-insert_sorted : (x : ℕ) (l : List ℕ) → length (insert_sorted x l) ≡ suc (length l)
unfolding insert_sorted
length-insert_sorted x [] = refl
length-insert_sorted x (y ∷ ys) = ground (arith, length-insert_sorted x ys)

pub length-sort_slice : (l : List ℕ) → length (sort_slice l) ≡ length l
unfolding sort_slice
length-sort_slice [] = refl
length-sort_slice (x ∷ xs) =
    omega (arith, length-insert_sorted x (sort_slice xs), length-sort_slice xs)

All-get_or : (b : ℕ) (l : List ℕ) (i d : ℕ) → i < length l → All (λ y. b ≤ y) l → b ≤ get_or l i d
unfolding get_or
All-get_or b [] i d h a = absurd (omega arith)
All-get_or b (y ∷ ys) zero d h a = a.0
All-get_or b (y ∷ ys) (suc i) d h a = All-get_or b ys i d (omega arith) a.1

-- In an ascending list the element at a smaller index is not above that at a larger one.
pub IsSorted-get_or :
    (l : List ℕ) (i j d : ℕ) → IsSorted l → i ≤ j → j < length l → get_or l i d ≤ get_or l j d
unfolding get_or
IsSorted-get_or [] i j d s h lt = absurd (omega arith)
IsSorted-get_or (x ∷ xs) zero zero d s h lt = omega arith
IsSorted-get_or (x ∷ xs) zero (suc j) d s h lt = All-get_or x xs j d (omega arith) s.0
IsSorted-get_or (x ∷ xs) (suc i) zero d s h lt = absurd (omega arith)
IsSorted-get_or (x ∷ xs) (suc i) (suc j) d s h lt =
    IsSorted-get_or xs i j d s.1 (omega arith) (omega arith)

-- Dropping elements keeps the order.
pub IsSorted-keep : (p : ℕ → Bool) (l : List ℕ) → IsSorted l → IsSorted (keep p l)
unfolding keep
IsSorted-keep p [] s = tt
IsSorted-keep p (x ∷ xs) s = ground (arith, IsSorted-keep p xs, All-keep x p xs)

pub contains-keep :
    (p : ℕ → Bool) (l : List ℕ) (y : ℕ) → contains (keep p l) y ≡ (contains l y && p y)
unfolding keep contains
contains-keep p [] y = refl
contains-keep p (x ∷ xs) y = ground (arith, contains-keep p xs y)
