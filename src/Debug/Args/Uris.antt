-- ===== src/Debug/Args/Uris.antt =====
-- tools/debugrun_args.go: the object that a source URI belongs to.
use aibap_mcp.Base.{
  ℕ, zero, suc, ◌+◌, ◌-◌, ◌≤◌, ◌<◌, ◌≡◌, refl, Bool, true, false, ◌&&◌, ◌||◌, Option, none, some,
  List, [], ◌∷◌, ◌++◌, Text, bytes, text_eq, is_empty, starts_with, to_upper, length, if◌then◌else◌,
  ◌==◌, arith, Option-cases, inl, inr,
}

-- The place of the last of the first `k` slashes; `start` without one. `i` is the place of the text.
last_slash : ℕ → ℕ → ℕ → Text → ℕ
last_slash zero i start s = start
last_slash (suc k) i start [] = start
last_slash (suc k) i start (c ∷ s) =
    let here = last_slash k (suc i) i s in
    let later = last_slash (suc k) (suc i) start s in if c == b'/' then here else later

unfoldable pub drop : ℕ → Text → Text
drop zero s = s
drop (suc n) [] = []
drop (suc n) (_ ∷ s) = drop n s

take : ℕ → Text → Text
take zero s = []
take (suc n) [] = []
take (suc n) (c ∷ s) = c ∷ take n s

-- Whether one of the two separators starts here.
unfoldable pub at_separator : Text → Bool
at_separator s = starts_with (bytes "/source/") s || starts_with (bytes "/includes/") s

-- The place of the first separator, of either kind, at or after the start.
first_separator : Text → Option ℕ
unfolding at_separator
first_separator [] = none
first_separator (c ∷ s) =
    let rest = first_separator s in
    if at_separator (c ∷ s) then some 0 else elim rest [ none ↦ none | some n ↦ some (suc n) ]

-- The part that a search skips: "/sap/bc/adt/<category>/<kind>".
unfoldable pub search_start : Text → ℕ
unfolding last_slash drop
search_start uri =
    if starts_with (bytes "/sap/bc/adt/") uri then last_slash 2 12 0 (drop 12 uri) else 0

-- `sourceObjectURI`
unfoldable pub source_object_uri : Text → Option Text
unfolding first_separator take drop
source_object_uri uri = elim (first_separator (drop (search_start uri) uri)) [
  | none ↦ none
  | some n ↦ let cut = search_start uri + n in if cut == 0 then none else some (take cut uri)
]

-- `strings.Split(s, "/")`
segments : Text → List Text
segments [] = [] ∷ []
segments (c ∷ s) =
    let rest = segments s in
    if c == b'/' then [] ∷ rest else elim rest [ [] ↦ (c ∷ []) ∷ [] | x ∷ xs ↦ (c ∷ x) ∷ xs ]

trim_prefix : Text → Text → Text
unfolding drop
trim_prefix p s = if starts_with p s then drop (length p) s else s

-- `url.PathUnescape` is a parameter; `none` is its error.
module _ (path_unescape : Text → Option Text) where
  object_name : Text → Text
  object_name s = elim (path_unescape s) [ none ↦ to_upper s | some u ↦ to_upper u ]

  object_of : List Text → Text × Text
  unfolding object_name
  object_of (a ∷ b ∷ c ∷ []) =
      if text_eq a (bytes "programs") && text_eq b (bytes "programs")
      then (bytes "PROG/P", object_name c)
      else if text_eq a (bytes "programs") && text_eq b (bytes "includes")
      then (bytes "PROG/I", object_name c)
      else if text_eq a (bytes "oo") && text_eq b (bytes "classes")
      then (bytes "CLAS/OC", object_name c)
      else if text_eq a (bytes "oo") && text_eq b (bytes "interfaces")
      then (bytes "INTF/OI", object_name c)
      else ([], [])
  object_of (a ∷ b ∷ c ∷ d ∷ e ∷ []) =
      if text_eq a (bytes "functions") && text_eq b (bytes "groups") && text_eq d (bytes "fmodules")
      then (bytes "FUGR/FF", object_name e)
      else ([], [])
  object_of _ = ([], [])

  -- `deriveBreakpointObject`
  unfoldable pub derive_breakpoint_object : Text → Text × Text
  unfolding object_of segments trim_prefix
  derive_breakpoint_object uri = elim (source_object_uri uri) [
    | none ↦ ([], [])
    | some obj ↦ object_of (segments (trim_prefix (bytes "/sap/bc/adt/") obj))
  ]

append-take : (n : ℕ) (s : Text) → take n s ++ drop n s ≡ s
unfolding take drop
append-take zero s = refl
append-take (suc n) [] = refl
append-take (suc n) (c ∷ s) = ground (arith, append-take n s)

drop-nil : (n : ℕ) → drop n [] ≡ []
unfolding drop
drop-nil zero = refl
drop-nil (suc n) = refl

drop-add : (m n : ℕ) (s : Text) → drop (m + n) s ≡ drop n (drop m s)
unfolding drop
drop-add zero n s = ground arith
drop-add (suc m) n [] = ground (arith, drop-nil n, drop-nil (suc m + n))
drop-add (suc m) n (c ∷ s) = let e : suc m + n ≡ suc (m + n) = omega arith in rw e (drop-add m n s)

length-take : (n : ℕ) (s : Text) → n ≤ length s → length (take n s) ≡ n
unfolding take
length-take zero s h = refl
length-take (suc n) [] h = ground arith
length-take (suc n) (c ∷ s) h = ground (arith, length-take n s)

length-drop : (n : ℕ) (s : Text) → length (drop n s) ≡ length s - n
unfolding drop
length-drop zero s = ground arith
length-drop (suc n) [] = ground arith
length-drop (suc n) (c ∷ s) = ground (arith, length-drop n s)

first_separator_found :
    (s : Text) (n : ℕ)
    → first_separator s ≡ some n
    → (at_separator (drop n s) ≡ true) × (n < length s)
unfolding first_separator drop
first_separator_found [] n h = ground arith
first_separator_found (c ∷ s) zero h = ground arith
first_separator_found (c ∷ s) (suc n) h = ground (arith, first_separator_found s n)

first_separator_first :
    (s : Text) (n j : ℕ) → first_separator s ≡ some n → j < n → at_separator (drop j s) ≡ false
unfolding first_separator drop
first_separator_first [] n j h k = ground arith
first_separator_first (c ∷ s) zero j h k = ground arith
first_separator_first (c ∷ s) (suc n) zero h k = ground arith
first_separator_first (c ∷ s) (suc n) (suc j) h k = ground (arith, first_separator_first s n j)

take-is_empty : (n : ℕ) (s : Text) → 0 < n → n ≤ length s → is_empty (take n s) ≡ false
unfolding take
take-is_empty zero s h k = ground arith
take-is_empty (suc n) [] h k = ground arith
take-is_empty (suc n) (c ∷ s) h k = refl

cut_at :
    (uri : Text) (start n : ℕ)
    → first_separator (drop start uri) ≡ some n
    → (start + n ≤ length uri)
      × (at_separator (drop (start + n) uri) ≡ true)
      × ((j : ℕ) → start ≤ j → j < start + n → at_separator (drop j uri) ≡ false)
cut_at uri start n q =
    let (sep, short) = first_separator_found (drop start uri) n q in
    (
      ground (arith, length-drop start uri),
      rw (drop-add start n uri) sep,
      λ j low high.
          let back = drop-add start (j - start) uri in
          let before = first_separator_first (drop start uri) n (j - start) q in ground arith,
    )

-- What makes `obj` the object URI of a URI whose search begins at `start`.
abbrev pub ObjectOf : Text → ℕ → Text → Type 0
ObjectOf uri start obj =
    ((is_empty obj ≡ false)
      × (obj ++ drop (length obj) uri ≡ uri)
      × (at_separator (drop (length obj) uri) ≡ true)
      × ((j : ℕ) → start ≤ j → j < length obj → at_separator (drop j uri) ≡ false))

taken-ObjectOf :
    (uri : Text) (start cut : ℕ)
    → 0 < cut
    → cut ≤ length uri
    → at_separator (drop cut uri) ≡ true
    → ((j : ℕ) → start ≤ j → j < cut → at_separator (drop j uri) ≡ false)
    → ObjectOf uri start (take cut uri)
taken-ObjectOf uri start cut h k sep before =
    rw (length-take cut uri k) (take-is_empty cut uri h k, append-take cut uri, sep, before)

-- A source URI's object URI is not empty, is followed in the URI by "/source/" or "/includes/", and
-- by none of the two at an earlier place after the category and kind.
pub source_object_uri_lem :
    (uri obj : Text) → source_object_uri uri ≡ some obj → ObjectOf uri (search_start uri) obj
unfolding source_object_uri
source_object_uri_lem uri obj h =
    elim (Option-cases (first_separator (drop (search_start uri) uri))) [
      | inl q ↦ absurd (ground (arith, q))
      | inr (n, q) ↦
          let (long, sep, before) = cut_at uri (search_start uri) n q in
          let made =
            taken-ObjectOf uri (search_start uri) (search_start uri + n) (ground (arith, q)) long
              sep before in
          let e : take (search_start uri + n) uri ≡ obj = ground (arith, q) in rw (← e) made
    ]
