-- ===== src/Logging/Line.antt =====
-- The line of a log record (`Handle` and `syslogPriority` of logging/papertrail.go).
use aibap_mcp.Base.{
  ℕ, ◌+◌, ◌-◌, ◌≡◌, refl, false, ◌||◌, [], ◌∷◌, ◌++◌, Text, bytes, has_byte, trim_space, leb, ◌==◌,
  if◌then◌else◌, arith,
}
use aibap_mcp.Debug.Values.{ℤ, pos, negsuc}

-- The level is a number: 8 and above is an error, 4 a warning, 0 is informational.
unfoldable pub syslog_priority : ℤ → ℕ
syslog_priority (negsuc _) = 8 + 7
syslog_priority (pos level) = 8 + (if leb 8 level then 3 else if leb 4 level then 4 else 6)

-- The digits of a number from 10 to 19.
digits : ℕ → Text
digits n = b'1' ∷ ((n - 10) + 48) ∷ []

-- `strings.ReplaceAll(msg, "\n", " ")`
unfoldable pub without_newlines : Text → Text
without_newlines [] = []
without_newlines (c ∷ s) = (if c == b'\n' then b' ' else c) ∷ without_newlines s

-- The line, from the level, the time in RFC 3339, the program's name and the rendered record.
unfoldable pub syslog_body : ℤ → Text → Text → Text → Text
unfolding syslog_priority digits without_newlines
syslog_body level ts program rendered =
    (b'<' ∷ digits (syslog_priority level))
    ++ (b'>' ∷ ts
        ++ (b' ' ∷ program ++ (bytes " aibap.mcp: " ++ without_newlines (trim_space rendered))))

unfoldable pub syslog_line : ℤ → Text → Text → Text → Text
unfolding syslog_body
syslog_line level ts program rendered = syslog_body level ts program rendered ++ (b'\n' ∷ [])

has_byte-without_newlines : (s : Text) → has_byte b'\n' (without_newlines s) ≡ false
unfolding has_byte without_newlines
has_byte-without_newlines [] = refl
has_byte-without_newlines (c ∷ s) = ground (arith, has_byte-without_newlines s)

has_byte-both : (b : ℕ) (s t : Text) → has_byte b (s ++ t) ≡ (has_byte b s || has_byte b t)
unfolding has_byte
has_byte-both b [] t = refl
has_byte-both b (c ∷ s) t = ground (arith, has_byte-both b s t)

digits_lem : (n : ℕ) → has_byte b'\n' (digits n) ≡ false
unfolding has_byte digits
digits_lem n = ground arith

-- The record cannot inject a line: whatever the rendered record is, the line that is sent ends with
-- its only newline, if the time and the program's name have none.
pub syslog_line_single :
    (level : ℤ) (ts program rendered : Text)
    → has_byte b'\n' ts ≡ false
    → has_byte b'\n' program ≡ false
    → (body : Text) × (syslog_line level ts program rendered ≡ body ++ (b'\n' ∷ []))
      × (has_byte b'\n' body ≡ false)
unfolding syslog_line syslog_body has_byte
syslog_line_single level ts program rendered h k =
    let msg = without_newlines (trim_space rendered) in
    let tail = bytes " aibap.mcp: " ++ msg in
    (
      syslog_body level ts program rendered,
      refl,
      ground (
        arith,
        h,
        k,
        digits_lem (syslog_priority level),
        has_byte-without_newlines (trim_space rendered),
        has_byte-both b'\n' program tail,
        has_byte-both b'\n' ts (b' ' ∷ program ++ tail),
        has_byte-both b'\n' (b'<' ∷ digits (syslog_priority level))
            (b'>' ∷ ts ++ (b' ' ∷ program ++ tail)),
      ),
    )
