-- ===== src/Base/Bytes.antt =====
-- Go strings as lists of bytes: comparison, prefixes, trimming, upper case, cutting.
use Prim.Native.Nat.{ℕ, ◌-◌}
use Prim.Native.Char.{code}
use Prim.Native.String.{String}
use mathlib.Core.Path.{◌≡◌, refl}
use mathlib.Core.Logic.{◌↔◌}
use mathlib.Core.Bool.{Bool, true, false, ◌&&◌, ◌||◌}
use mathlib.Core.List.{List, [], ◌∷◌, ◌++◌, reverse}
use native.Mathlib.Omega.{arith}
use aibap_mcp.Base.Tests.{leb, ltb, ◌==◌, if◌then◌else◌}

abbrev pub Text : Type 0
Text = List ℕ

-- The bytes of a literal.
abbrev pub bytes : String → Text
bytes String.[] = []
bytes (String.◌∷◌ c s) = code c ∷ bytes s

unfoldable pub text_eq : Text → Text → Bool
text_eq [] [] = true
text_eq [] (_ ∷ _) = false
text_eq (_ ∷ _) [] = false
text_eq (x ∷ xs) (y ∷ ys) = (x == y) && text_eq xs ys

pub text_eq_iff : (s t : Text) → (text_eq s t ≡ true) ↔ (s ≡ t)
unfolding text_eq
text_eq_iff [] [] = ground arith
text_eq_iff [] (_ ∷ _) = ground arith
text_eq_iff (_ ∷ _) [] = ground arith
text_eq_iff (x ∷ xs) (y ∷ ys) = ground (arith, text_eq_iff xs ys)

pub text_eq_refl : (s : Text) → text_eq s s ≡ true
text_eq_refl s = (text_eq_iff s s).1 refl

abbrev pub is_empty : Text → Bool
is_empty [] = true
is_empty (_ ∷ _) = false

-- `strings.HasPrefix(s, prefix)`, with the prefix first.
unfoldable pub starts_with : Text → Text → Bool
starts_with [] s = true
starts_with (_ ∷ _) [] = false
starts_with (p ∷ ps) (c ∷ s) = (p == c) && starts_with ps s

pub starts_with-append : (p s : Text) → starts_with p (p ++ s) ≡ true
unfolding starts_with
starts_with-append [] s = refl
starts_with-append (c ∷ p) s = ground (arith, starts_with-append p s)

-- `strings.Cut(s, sep)` at a one-byte separator.
unfoldable pub cut_byte : ℕ → Text → Text × Text
cut_byte sep [] = ([], [])
cut_byte sep (c ∷ s) =
    let (before, after) = cut_byte sep s in if c == sep then ([], s) else (c ∷ before, after)

unfoldable pub has_byte : ℕ → Text → Bool
has_byte b [] = false
has_byte b (c ∷ s) = (c == b) || has_byte b s

pub cut_byte-append :
    (sep : ℕ) (s t : Text) → has_byte sep s ≡ false → cut_byte sep (s ++ sep ∷ t) ≡ (s, t)
unfolding cut_byte has_byte
cut_byte-append sep [] t h = ground arith
cut_byte-append sep (c ∷ s) t h = ground (arith, cut_byte-append sep s t)

-- A key made of two parts and a separator determines its first part.
pub prefix_determines :
    (sep : ℕ) (s s' t : Text)
    → has_byte sep s ≡ false
    → has_byte sep s' ≡ false
    → starts_with (s ++ sep ∷ []) (s' ++ sep ∷ t) ≡ true
    → s ≡ s'
unfolding starts_with has_byte
prefix_determines sep [] [] t hs hs' h = refl
prefix_determines sep [] (c ∷ s') t hs hs' h = ground arith
prefix_determines sep (c ∷ s) [] t hs hs' h = ground arith
prefix_determines sep (c ∷ s) (d ∷ s') t hs hs' h = ground (arith, prefix_determines sep s s' t)

-- White space and letters of ASCII: `strings.TrimSpace` and `strings.ToUpper` on ASCII text.
abbrev pub is_space : ℕ → Bool
is_space c = (leb 9 c && leb c 13) || (c == 32)

unfoldable pub trim_left : Text → Text
trim_left [] = []
trim_left (c ∷ s) = let rest = trim_left s in if is_space c then rest else c ∷ s

unfoldable pub trim_space : Text → Text
unfolding trim_left
trim_space s = reverse (trim_left (reverse (trim_left s)))

unfoldable pub upper_byte : ℕ → ℕ
upper_byte c = if leb 97 c && leb c 122 then c - 32 else c

unfoldable pub to_upper : Text → Text
unfolding upper_byte
to_upper [] = []
to_upper (c ∷ s) = upper_byte c ∷ to_upper s

upper_byte_idem : (c : ℕ) → upper_byte (upper_byte c) ≡ upper_byte c
unfolding upper_byte
upper_byte_idem c = ground arith

pub to_upper_idem : (s : Text) → to_upper (to_upper s) ≡ to_upper s
unfolding to_upper
to_upper_idem [] = refl
to_upper_idem (c ∷ s) = ground (arith, upper_byte_idem c, to_upper_idem s)

-- The byte order by which `sort.Strings` sorts.
unfoldable pub text_le : Text → Text → Bool
text_le [] t = true
text_le (_ ∷ _) [] = false
text_le (x ∷ s) (y ∷ t) = ltb x y || ((x == y) && text_le s t)

pub text_le_total : (s t : Text) → text_le s t ≡ false → text_le t s ≡ true
unfolding text_le
text_le_total [] t h = ground arith
text_le_total (x ∷ s) [] h = ground arith
text_le_total (x ∷ s) (y ∷ t) h = ground (arith, text_le_total s t)

pub text_le_trans : (s t u : Text) → text_le s t ≡ true → text_le t u ≡ true → text_le s u ≡ true
unfolding text_le
text_le_trans [] t u h k = refl
text_le_trans (x ∷ s) [] u h k = ground arith
text_le_trans (x ∷ s) (y ∷ t) [] h k = ground arith
text_le_trans (x ∷ s) (y ∷ t) (z ∷ u) h k = ground (arith, text_le_trans s t u)

-- Putting a cut text together again.
pub join-cut_byte :
    (sep : ℕ) (s : Text)
    → has_byte sep s ≡ true
    → (cut_byte sep s).0 ++ sep ∷ (cut_byte sep s).1 ≡ s
unfolding cut_byte has_byte
join-cut_byte sep [] h = ground arith
join-cut_byte sep (c ∷ s) h = ground (arith, join-cut_byte sep s)

pub has_byte-append : (b : ℕ) (s t : Text) → has_byte b (s ++ b ∷ t) ≡ true
unfolding has_byte
has_byte-append b [] t = ground arith
has_byte-append b (c ∷ s) t = ground (arith, has_byte-append b s t)
