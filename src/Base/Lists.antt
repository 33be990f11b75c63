-- ===== src/Base/Lists.antt =====
-- Lists with Boolean tests: filters, membership, lengths.
use Prim.Native.Nat.{ℕ, suc, ◌+◌, ◌≤◌}
use mathlib.Core.Path.{◌≡◌, refl, ap}
use mathlib.Core.Bool.{Bool, true, false, not, ◌&&◌, ◌||◌}
use mathlib.Core.List.{List, [], ◌∷◌, ◌++◌, map}
use native.Mathlib.Omega.{arith}
use aibap_mcp.Base.Tests.{if◌then◌else◌}
use aibap_mcp.Base.Bytes.{Text, text_eq, text_eq_iff, text_le, text_le_total}

module _ {ℓ} {A : Type ℓ} where
  abbrev pub length : List A → ℕ
  length [] = 0
  length (x ∷ xs) = suc (length xs)

module _ {ℓ} {A : Type ℓ} where
  pub length-append : (xs ys : List A) → length (xs ++ ys) ≡ length xs + length ys
  length-append [] ys = omega arith
  length-append (x ∷ xs) ys = omega (arith, length-append xs ys)

  pub length-map {κ} : {B : Type κ} (xs : List A) (f : A → B) → length (map f xs) ≡ length xs
  length-map [] f = refl
  length-map (x ∷ xs) f = ap suc (length-map xs f)

  -- The elements that pass a test, in order: the shape of the source's collecting loops.
  unfoldable pub keep : (A → Bool) → List A → List A
  keep p [] = []
  keep p (x ∷ xs) = let rest = keep p xs in if p x then x ∷ rest else rest

  unfoldable pub all : (A → Bool) → List A → Bool
  all p [] = true
  all p (x ∷ xs) = p x && all p xs

  pub all-keep : (p : A → Bool) (xs : List A) → all p (keep p xs) ≡ true
  unfolding keep all
  all-keep p [] = refl
  all-keep p (x ∷ xs) = ground (arith, all-keep p xs)

  pub keep-append : (p : A → Bool) (xs ys : List A) → keep p (xs ++ ys) ≡ keep p xs ++ keep p ys
  unfolding keep
  keep-append p [] ys = refl
  keep-append p (x ∷ xs) ys = ground (arith, keep-append p xs ys)

  pub keep-eq_of_all : (p : A → Bool) (xs : List A) → all p xs ≡ true → keep p xs ≡ xs
  unfolding keep all
  keep-eq_of_all p [] h = refl
  keep-eq_of_all p (x ∷ xs) h = ground (arith, keep-eq_of_all p xs)

  pub length-keep-le : (p : A → Bool) (xs : List A) → length (keep p xs) ≤ length xs
  unfolding keep
  length-keep-le p [] = omega arith
  length-keep-le p (x ∷ xs) = ground (arith, length-keep-le p xs)

-- Sets of texts, as the keys of a Go map.
unfoldable pub contains : List Text → Text → Bool
contains [] k = false
contains (x ∷ xs) k = text_eq x k || contains xs k

unfoldable pub insert : Text → List Text → List Text
insert k xs = if contains xs k then xs else k ∷ xs

unfoldable pub remove : Text → List Text → List Text
remove k = keep (λ x. not (text_eq x k))

pub contains-insert :
    (k j : Text) (xs : List Text) → contains (insert k xs) j ≡ (text_eq k j || contains xs j)
unfolding insert contains
contains-insert k j xs = ground (arith, text_eq_iff k j)

-- Whether `p` holds of `j` decides what a filter keeps of it.
pub contains-keep :
    (p : Text → Bool) (j : Text) (xs : List Text) → contains (keep p xs) j ≡ (contains xs j && p j)
unfolding keep contains
contains-keep p j [] = refl
contains-keep p j (x ∷ xs) = ground (arith, text_eq_iff x j, contains-keep p j xs)

pub contains-remove :
    (k j : Text) (xs : List Text)
    → contains (remove k xs) j ≡ (if text_eq k j then false else contains xs j)
unfolding remove
contains-remove k j xs =
    ground (arith, contains-keep (λ x. not (text_eq x k)) j xs, text_eq_iff j k, text_eq_iff k j)

-- No key occurs twice.
unfoldable pub distinct : List Text → Bool
distinct [] = true
distinct (x ∷ xs) = not (contains xs x) && distinct xs

pub distinct-insert :
    (k : Text) (xs : List Text) → distinct xs ≡ true → distinct (insert k xs) ≡ true
unfolding insert distinct
distinct-insert k xs h = ground arith

pub distinct-keep :
    (p : Text → Bool) (xs : List Text) → distinct xs ≡ true → distinct (keep p xs) ≡ true
unfolding keep distinct
distinct-keep p [] h = refl
distinct-keep p (x ∷ xs) h = ground (arith, distinct-keep p xs, contains-keep p x xs)

-- `sort.Strings`, as an insertion sort.
unfoldable pub insert_sorted : Text → List Text → List Text
insert_sorted k [] = k ∷ []
insert_sorted k (x ∷ xs) =
    let rest = insert_sorted k xs in if text_le k x then k ∷ x ∷ xs else x ∷ rest

unfoldable pub sort : List Text → List Text
unfolding insert_sorted
sort [] = []
sort (x ∷ xs) = insert_sorted x (sort xs)

unfoldable pub sorted : List Text → Bool
sorted [] = true
sorted (x ∷ []) = true
sorted (x ∷ y ∷ xs) = text_le x y && sorted (y ∷ xs)

sorted-insert_sorted :
    (k : Text) (xs : List Text) → sorted xs ≡ true → sorted (insert_sorted k xs) ≡ true
unfolding insert_sorted sorted
sorted-insert_sorted k [] h = refl
sorted-insert_sorted k (x ∷ []) h = ground (arith, text_le_total k x)
sorted-insert_sorted k (x ∷ y ∷ xs) h =
    ground (arith, text_le_total k x, text_le_total k y, sorted-insert_sorted k (y ∷ xs))

pub sorted-sort : (xs : List Text) → sorted (sort xs) ≡ true
unfolding sort
sorted-sort [] = unfold sorted in refl
sorted-sort (x ∷ xs) = sorted-insert_sorted x (sort xs) (sorted-sort xs)

contains-insert_sorted :
    (k j : Text) (xs : List Text) → contains (insert_sorted k xs) j ≡ (text_eq k j || contains xs j)
unfolding insert_sorted contains
contains-insert_sorted k j [] = ground arith
contains-insert_sorted k j (x ∷ xs) = ground (arith, contains-insert_sorted k j xs)

pub contains-sort : (xs : List Text) (j : Text) → contains (sort xs) j ≡ contains xs j
unfolding sort contains
contains-sort [] j = refl
contains-sort (x ∷ xs) j = ground (arith, contains-insert_sorted x j (sort xs), contains-sort xs j)

-- A test that holds of every key of a list holds of every key of the sorted list.
all-insert_sorted :
    (p : Text → Bool) (k : Text) (xs : List Text) → all p (insert_sorted k xs) ≡ (p k && all p xs)
unfolding insert_sorted all
all-insert_sorted p k [] = refl
all-insert_sorted p k (x ∷ xs) = ground (arith, all-insert_sorted p k xs)

pub all-sort : (p : Text → Bool) (xs : List Text) → all p (sort xs) ≡ all p xs
unfolding sort all
all-sort p [] = refl
all-sort p (x ∷ xs) = ground (arith, all-insert_sorted p x (sort xs), all-sort p xs)
