-- ===== src/Logging/Fanout.antt =====
-- logging/fanout.go: one log record for several handlers.
use aibap_mcp.Base.{
  ◌≡◌, refl, Bool, false, ◌||◌, List, [], ◌∷◌, keep, if◌then◌else◌, Result, ok, err, arith,
}

-- `slog.Handler`, for records `R` and levels `L`, with what it changes outside.
pub record SlogHandler (W L R F : Type 0) : Type 0 where
  pub is_enabled : L → Bool
  pub take_record : R → W → Result F (Unit {0}) × W

module _ {W L R F : Type 0} (level_of : R → L) where
  unfoldable pub enabled : List (SlogHandler W L R F) → L → Bool
  enabled [] level = false
  enabled (h ∷ hs) level = h.is_enabled level || enabled hs level

  unfoldable pub handle_all : List (SlogHandler W L R F) → R → W → Result F (Unit {0}) × W
  handle_all [] r w = (ok tt, w)
  handle_all (h ∷ hs) r w =
      let (answer, w') = h.take_record r w in
      let next = handle_all hs r w' in
      let skip = handle_all hs r w in
      if h.is_enabled (level_of r)
      then (elim answer [ err e ↦ (err e, w') | ok _ ↦ next ])
      else skip

  -- The handlers that take records of a level.
  unfoldable pub takers : L → List (SlogHandler W L R F) → List (SlogHandler W L R F)
  takers level = keep (λ h. h.is_enabled level)

  -- A record passes through the handlers that are enabled for its level, in their order, up to the
  -- first that fails; the others neither see it nor change the outside, and if no handler is enabled
  -- for the level, the fan-out is not either.
  pub handle_all_lem :
      (hs : List (SlogHandler W L R F)) (r : R) (w : W)
      → (handle_all hs r w ≡ handle_all (takers (level_of r) hs) r w)
        × (enabled (takers (level_of r) hs) (level_of r) ≡ enabled hs (level_of r))
  unfolding handle_all takers enabled keep
  handle_all_lem [] r w = (refl, refl)
  handle_all_lem (h ∷ hs) r w =
      ground (arith, handle_all_lem hs r w, handle_all_lem hs r (h.take_record r w).1)
