-- ===== src/Debug/Instructions/Cache.antt =====
-- `okCodeCache` of tools/debugrun_instructions.go, and what the steps say of the OK code.
use aibap_mcp.Base.{
  ◌≡◌, inl, inr, ◌⊎◌, Bool, true, false, Option, none, some, List, [], ◌∷◌, Text, text_eq,
  text_eq_refl, if◌then◌else◌, Result, ok, err, Result-cases, Bool-cases, arith,
}
use aibap_mcp.Debug.Instructions.{OkCode, ok_code_unknown, ok_code_available, ok_code_missing}

-- `bySystem`: the answers that are known.
abbrev pub OkCodeCache : Type 0
OkCodeCache = List (Text × OkCode)

unfoldable pub known : OkCodeCache → Text → Option OkCode
known [] system = none
known ((s, v) ∷ c) system = let rest = known c system in if text_eq s system then some v else rest

-- `objectInfo` asks SAP for the program; `not_found` is `ClassifyError` of its error. Other lookups
-- may store their answers while SAP is asked, which the cache that `meanwhile` makes has.
module _ {W F : Type 0} (object_info : W → Result F (Unit {0}) × W) (not_found : F → Bool) where
  unfoldable pub answer_of : Result F (Unit {0}) → OkCode
  answer_of (ok _) = ok_code_available
  answer_of (err e) = if not_found e then ok_code_missing else ok_code_unknown

  unfoldable pub remember : OkCodeCache → Text → OkCode → OkCodeCache
  remember c system ok_code_unknown = c
  remember c system ok_code_available = (system, ok_code_available) ∷ c
  remember c system ok_code_missing = (system, ok_code_missing) ∷ c

  unfoldable pub lookup :
      OkCodeCache → (OkCodeCache → OkCodeCache) → Text → W → OkCode × OkCodeCache × W
  unfolding known answer_of remember
  lookup c meanwhile system w = elim (known c system) [
    | some v ↦ (v, c, w)
    | none ↦
        let (answer, w') = object_info w in
        let v = answer_of answer in (v, remember (meanwhile c) system v, w')
  ]

  -- No cache entry is a failed lookup.
  unfoldable pub definite : OkCodeCache → Bool
  definite [] = true
  definite ((_, ok_code_unknown) ∷ c) = false
  definite ((_, ok_code_available) ∷ c) = definite c
  definite ((_, ok_code_missing) ∷ c) = definite c

  -- A definite answer is asked for once: after a lookup that did not fail, a second lookup gives the
  -- same answer without asking SAP, and the cache still has no failed lookup. After a lookup that
  -- failed, the cache has no answer for the system, unless another lookup stored one meanwhile.
  pub lookup_lem :
      (c : OkCodeCache) (meanwhile : OkCodeCache → OkCodeCache) (system : Text) (w later : W)
      → definite (meanwhile c) ≡ true
      → known c system ≡ none
      → let (v, c', w') = lookup c meanwhile system w in
        (definite c' ≡ true)
        × ((v ≡ ok_code_unknown) × (known c' system ≡ known (meanwhile c) system)
            ⊎ (lookup c' meanwhile system later ≡ (v, c', later)))
  unfolding lookup known answer_of remember definite
  lookup_lem c meanwhile system w later m h = elim (Result-cases (object_info w).0) [
    | inl (_, a) ↦ (ground (arith, h, a, m), inr (ground (arith, h, a, text_eq_refl system)))
    | inr (e, a) ↦ elim (Bool-cases (not_found e)) [
      | inl b ↦ (ground (arith, h, a, b, m), inr (ground (arith, h, a, b, text_eq_refl system)))
      | inr b ↦ (ground (arith, h, a, b, m), inl (ground (arith, h, a, b)))
    ]
  ]
