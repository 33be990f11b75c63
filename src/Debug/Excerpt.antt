-- ===== src/Debug/Excerpt.antt =====
-- `sourceExcerpt` of tools/debugrun.go: the source lines around the debuggee's position. A row is
-- rendered as a marker, its number, a colon and its text; how `fmt` writes a number is a parameter.
pub mod Rows
use aibap_mcp.Base.{
  ℕ, zero, suc, ◌+◌, ◌-◌, ◌==◌, Bool, true, false, ◌&&◌, Option, none, some, List, [], ◌∷◌, ◌++◌,
  Text, bytes, length, starts_with, if◌then◌else◌, leb,
}

-- `strings.ReplaceAll(text, "\r\n", "\n")`
unfoldable pub unix_lines : Text → Text
unix_lines [] = []
unix_lines (c ∷ s) =
    let rest = unix_lines s in if c == b'\r' && starts_with (b'\n' ∷ []) s then rest else c ∷ rest

unfoldable pub onto_head : ℕ → List Text → List Text
onto_head c [] = (c ∷ []) ∷ []
onto_head c (line ∷ lines) = (c ∷ line) ∷ lines

-- `strings.Split(text, "\n")`
unfoldable pub split_lines : Text → List Text
unfolding onto_head
split_lines [] = [] ∷ []
split_lines (c ∷ s) = let rest = split_lines s in if c == b'\n' then [] ∷ rest else onto_head c rest

unfoldable pub source_lines : Text → List Text
unfolding unix_lines split_lines
source_lines text = split_lines (unix_lines text)

pub record Row : Type 0 where
  pub current : Bool
  pub number : ℕ
  pub text : Text

abbrev pub line_at {ℓ} : {A : Type ℓ} → List A → ℕ → Option A
line_at [] i = none
line_at (l ∷ ls) zero = some l
line_at (l ∷ ls) (suc i) = line_at ls i

unfoldable pub onto : Row → Option (List Row) → Option (List Row)
onto r none = none
onto r (some rs) = some (r ∷ rs)

-- The loop from the line `n` over `k` lines; an index out of range panics, which is `none`.
unfoldable pub rows : List Text → ℕ → ℕ → ℕ → Option (List Row)
unfolding onto
rows lines line n zero = some []
rows lines line n (suc k) =
    let rest = rows lines line (suc n) k in
    elim (line_at lines (n - 1)) [
      | none ↦ none
      | some text ↦ onto (record { current = n == line; number = n; text = text }) rest
    ]

abbrev pub first_line : ℕ → ℕ → ℕ
first_line line radius = if leb 1 (line - radius) then line - radius else 1

abbrev pub last_line : ℕ → ℕ → ℕ → ℕ
last_line count line radius = if leb count (line + radius) then count else line + radius

unfoldable pub excerpt_rows : Text → ℕ → ℕ → Option (List Row)
unfolding rows
excerpt_rows text line radius =
    let lines = source_lines text in
    let from = first_line line radius in
    rows lines line from (suc (last_line (length lines) line radius) - from)

-- The rendering of the rows, joined by newlines: the last one's is cut off.
module _ (format_int : ℕ → Text) where
  row_text : Row → Text
  row_text r =
      (if r.current then bytes "> " else bytes "  ") ++ format_int r.number ++ bytes ": " ++ r.text

  rows_text : List Row → Text
  unfolding row_text
  rows_text [] = []
  rows_text (r ∷ []) = row_text r
  rows_text (r ∷ r' ∷ rs) = row_text r ++ b'\n' ∷ rows_text (r' ∷ rs)

  pub source_excerpt : Text → ℕ → ℕ → Option Text
  unfolding rows_text
  source_excerpt text line radius = elim (excerpt_rows text line radius) [
    | none ↦ none
    | some rs ↦ some (rows_text rs)
  ]
