-- ===== src/Debug/Excerpt/Rows.antt =====
-- The rows of a source excerpt: no index out of range, and the right lines.
use mathlib.Core.List.{map}
use aibap_mcp.Base.{
  Bool, ◌&&◌, ◌∙◌, inl, inr, Bool-cases, Option, none, leb, ltb, if◌then◌else◌, ℕ, zero, suc, ◌+◌,
  ◌-◌, ◌==◌, ◌<◌, ◌≤◌, ◌≡◌, ◌⊎◌, refl, ap, some, List, [], ◌∷◌, Text, length, arith,
}
use aibap_mcp.Debug.Excerpt.{
  Row, rows, onto, line_at, source_lines, first_line, last_line, excerpt_rows,
}

module _ {ℓ} {A : Type ℓ} where
  line_at-some : (xs : List A) (i : ℕ) → i < length xs → (x : A) × (line_at xs i ≡ some x)
  line_at-some [] i h = absurd (omega arith)
  line_at-some (x ∷ xs) zero h = (x, refl)
  line_at-some (x ∷ xs) (suc i) h = line_at-some xs i (omega arith)

-- What the rows show for a line number: the mark and the text of the first row with that number.
abbrev pub shown : List Row → ℕ → Option (Bool × Text)
shown [] m = none
shown (r ∷ rs) m = if r.number == m then some (r.current, r.text) else shown rs m

-- A line of the text, with whether it is the line `line`.
abbrev pub marked_line : List Text → ℕ → ℕ → Option (Bool × Text)
marked_line ls line m = elim (line_at ls (m - 1)) [ none ↦ none | some t ↦ some (m == line, t) ]

-- `k` numbers from `n` on.
abbrev pub numbers_from : ℕ → ℕ → List ℕ
numbers_from n zero = []
numbers_from n (suc k) = n ∷ numbers_from (suc n) k

rows_lem :
    (ls : List Text) (line n k m : ℕ)
    → 1 ≤ n
    → n + k ≤ suc (length ls)
    → (rs : List Row) × (rows ls line n k ≡ some rs)
      × (shown rs m ≡ (if leb n m && ltb m (n + k) then marked_line ls line m else none))
      × (map (λ r. r.number) rs ≡ numbers_from n k)
unfolding rows onto
rows_lem ls line n zero m p q = ([], refl, ground arith, refl)
rows_lem ls line n (suc k) m p q =
    let (t, e) = line_at-some ls (n - 1) (omega arith) in
    let (rs, f, look, numbers) = rows_lem ls line (suc n) k m (omega arith) (omega arith) in
    (
      record { current = n == line; number = n; text = t } ∷ rs,
      ground (arith, e, f),
      ground (arith, e, look),
      ap (λ ns. n ∷ ns) numbers,
    )

window :
    (count line radius : ℕ)
    → 1 ≤ line
    → line ≤ count
    → let from = first_line line radius in
      let to = last_line count line radius in
      (1 ≤ from)
      × (from ≤ to)
      × (to ≤ count)
      × ((from ≤ line) × (line ≤ from + radius) × ((from ≡ 1) ⊎ (line ≡ from + radius)))
      × ((line ≤ to) × (to ≤ line + radius) × ((to ≡ count) ⊎ (to ≡ line + radius)))
window count line radius p q = ground arith

line_at_past : {A : Type 0} (xs : List A) (i : ℕ) → length xs ≤ i → line_at xs i ≡ none
line_at_past [] i h = refl
line_at_past (x ∷ xs) zero h = absurd (omega arith)
line_at_past (x ∷ xs) (suc i) h = line_at_past xs i (omega arith)

in_window :
    (ls : List Text) (line radius m : ℕ)
    → 1 ≤ line
    → line ≤ length ls
    → let from = first_line line radius in
      let k = suc (last_line (length ls) line radius) - from in
      (if leb from m && ltb m (from + k) then marked_line ls line m else none) ≡ (
        if leb 1 m && leb m (line + radius) && leb line (m + radius)
        then marked_line ls line m
        else none)
in_window ls line radius m p q = elim (Bool-cases (leb (length ls) (m - 1))) [
  | inl far ↦ let w = line_at_past ls (m - 1) (ground (arith, far)) in ground (arith, w, p, q)
  | inr near ↦ ground (arith, near, p, q)
]

-- `sourceExcerpt` at a line of the text never reads outside the text. For a line number `m` its rows
-- show that line of the text, if there is one and it is at most `radius` lines away, and nothing
-- else; the mark is on the row of the line itself; and the rows' numbers are consecutive.
pub excerpt_rows_lem :
    (text : Text) (line radius m : ℕ)
    → 1 ≤ line
    → line ≤ length (source_lines text)
    → (rs : List Row) × (excerpt_rows text line radius ≡ some rs)
      × (shown rs m ≡ (
          if leb 1 m && leb m (line + radius) && leb line (m + radius)
          then marked_line (source_lines text) line m
          else none))
      × ((n : ℕ) × (k : ℕ) × (map (λ r. r.number) rs ≡ numbers_from n k))
unfolding excerpt_rows
excerpt_rows_lem text line radius m p q =
    let ls = source_lines text in
    let from = first_line line radius in
    let to = last_line (length ls) line radius in
    let (a, b, c, d, e) = window (length ls) line radius p q in
    let k = suc to - from in
    let (rs, x, look, numbers) = rows_lem ls line from k m a (omega (arith, a, b, c)) in
    (rs, x, look ∙ in_window ls line radius m p q, (from, k, numbers))
