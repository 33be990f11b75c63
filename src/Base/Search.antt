-- ===== src/Base/Search.antt =====
-- Lower case, substrings and joined texts: `strings.ToLower` on ASCII and the letters of Latin-1,
-- `strings.Contains`, `strings.Join`.
use Prim.Native.Nat.{◌+◌}
use mathlib.Core.Path.{◌≡◌, refl}
use mathlib.Core.Bool.{Bool, true, ◌&&◌, ◌||◌}
use mathlib.Core.List.{List, [], ◌∷◌, ◌++◌}
use native.Mathlib.Omega.{arith}
use aibap_mcp.Base.Tests.{leb, ◌==◌, if◌then◌else◌}
use aibap_mcp.Base.Bytes.{Text, starts_with, starts_with-append}

-- After the byte 195, UTF-8 has the letters of Latin-1: 128 to 158 are the capitals, but for 151.
unfoldable pub to_lower : Text → Text
to_lower [] = []
to_lower (c ∷ []) = (if leb 65 c && leb c 90 then c + 32 else c) ∷ []
to_lower (c ∷ d ∷ s) =
    let rest = to_lower (d ∷ s) in
    let rest' = to_lower s in
    if (c == 195) && leb 128 d && leb d 158
    then c ∷ (if d == 151 then d else d + 32) ∷ rest'
    else (if leb 65 c && leb c 90 then c + 32 else c) ∷ rest

-- `strings.Contains(s, part)`, with the part first.
unfoldable pub contains_text : Text → Text → Bool
contains_text part [] = starts_with part []
contains_text part (c ∷ s) = starts_with part (c ∷ s) || contains_text part s

pub contains_text-append : (part s t : Text) → contains_text part (s ++ (part ++ t)) ≡ true
unfolding contains_text starts_with
contains_text-append [] [] [] = refl
contains_text-append [] [] (c ∷ t) = refl
contains_text-append (p ∷ part) [] t = ground (arith, starts_with-append (p ∷ part) t)
contains_text-append part (c ∷ s) t = ground (arith, contains_text-append part s t)

unfoldable pub join : Text → List Text → Text
join sep [] = []
join sep (x ∷ []) = x
join sep (x ∷ y ∷ xs) = x ++ (sep ++ join sep (y ∷ xs))
