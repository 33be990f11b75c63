-- ===== src/Locks/Activate/Reads.antt =====
-- What a read leaves of the locks (tools/source.go).
use aibap_mcp.Base.{◌≡◌, refl, Text, text_eq_iff, Result-cases, inl, inr, arith}
use aibap_mcp.Locks.Adt.{Adt, AdtLaws, handle_of}
use aibap_mcp.Locks.Session.{Session}
use aibap_mcp.Locks.Activate.{get_source, source_answer}

module _ (a : Adt) (l : AdtLaws a) where
  -- `get_source` stores an ETag, but leaves every lock handle and the tracker as they are.
  pub get_source_keeps :
      (s : Session a) (uri j : Text)
      → let s' = (get_source a s uri).1 in
        (s'.tracker ≡ s.tracker)
        × (handle_of (a.get s'.lock_map j) ≡ handle_of (a.get s.lock_map j))
  unfolding get_source source_answer
  get_source_keeps s uri j =
      let key = a.lock_key s.active uri in
      elim (Result-cases (a.get_source uri s.world).0) [
        | inl ((source, etag), p) ↦ (
          rw p refl,
          rw p (
              ground (
                arith,
                text_eq_iff key j,
                l.handle-update_etag s.lock_map key etag,
                l.get-update_etag_ne s.lock_map key etag j,
              )),
        )
        | inr (e, p) ↦ (rw p refl, rw p refl)
      ]
