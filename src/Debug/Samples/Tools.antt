-- ===== src/Debug/Samples/Tools.antt =====
-- The lookup of the OK code, a wait that sees a run halt, and an excerpt.
use mathlib.Core.List.{map}
use aibap_mcp.Base.{
  ℕ, false, starts_with, ◌≡◌, ◌≤◌, ◌⊎◌, refl, true, some, List, [], ◌∷◌, Text, bytes, ltb, Result,
  ok, arith,
}
use aibap_mcp.Debug.Run.{new_run}
use aibap_mcp.Debug.Samples.{fresh, halted, halted-Reach}
use aibap_mcp.Debug.Values.{pos}
use aibap_mcp.Debug.Instructions.{ok_code_unknown, ok_code_available}
use aibap_mcp.Debug.Instructions.Cache.{OkCodeCache, known, definite, lookup, lookup_lem}
use aibap_mcp.Debug.Wait.{wait_until, is_newer}
use aibap_mcp.Debug.Wait.Newer.{wait_until_lem}
use aibap_mcp.Debug.Excerpt.{Row, excerpt_rows, source_lines, split_lines, unix_lines, onto_head}
use aibap_mcp.Debug.Excerpt.Rows.{shown, numbers_from, excerpt_rows_lem}

-- SAP knows the program; the world counts the requests.
abbrev object_info : List Text → Result Text (Unit {0}) × List Text
object_info w = (ok tt, bytes "rs_adtdbg_activate_by_okcode" ∷ w)

abbrev one_known : OkCodeCache → OkCodeCache
one_known c = (bytes "ECC", ok_code_available) ∷ c

lookup_lem_example :
    let (v, c', w') = lookup object_info (λ e. true) [] one_known (bytes "S4") [] in
    (definite object_info (λ (e : Text). true) c' ≡ true)
    × ((v ≡ ok_code_unknown) × (known c' (bytes "S4") ≡ known (one_known []) (bytes "S4"))
        ⊎ (lookup object_info (λ e. true) c' one_known (bytes "S4") [] ≡ (v, c', [])))
unfolding definite known
lookup_lem_example = lookup_lem object_info (λ e. true) [] one_known (bytes "S4") [] [] refl refl

wait_until_lem_example :
    let version = (wait_until (is_newer (pos 5)) fresh [] halted).0.version in
    (ltb 5 version ≡ ltb 5 halted.st.version)
    × (fresh.st.version ≤ version)
    × (version ≤ halted.st.version)
unfolding new_run
wait_until_lem_example = wait_until_lem 5 fresh [] halted (omega arith) halted-Reach

-- Five lines, the first with a carriage return.
abbrev five : Text
five = b'a' ∷ b'\r' ∷ b'\n' ∷ b'b' ∷ b'\n' ∷ b'c' ∷ b'\n' ∷ b'd' ∷ b'\n' ∷ b'e' ∷ []

excerpt_rows_lem_example :
    (rs : List Row) × (excerpt_rows five 3 1 ≡ some rs)
    × (shown rs 4 ≡ some (false, bytes "d"))
    × ((n : ℕ) × (k : ℕ) × (map (λ r. r.number) rs ≡ numbers_from n k))
unfolding source_lines split_lines unix_lines onto_head starts_with
excerpt_rows_lem_example = excerpt_rows_lem five 3 1 4 (omega arith) (omega arith)
