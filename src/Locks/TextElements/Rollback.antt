-- ===== src/Locks/TextElements/Rollback.antt =====
-- What `set_text_elements` leaves of the lock of the text elements.
use aibap_mcp.Base.{
  ◌≡◌, ◌⊎◌, ◌∙◌, refl, ap, Bool, List, true, false, [], Text, text_eq_refl, is_empty, Result, ok,
  err, is_ok, Result-cases, Bool-cases, inl, inr, arith,
}
use aibap_mcp.Locks.Adt.{Adt, AdtLaws, handle_of}
use aibap_mcp.Locks.Session.{Session}
use aibap_mcp.Locks.WriteLock.{lock_pre_existed}
use aibap_mcp.Locks.WriteLock.Release.{release_cases}
use aibap_mcp.Locks.TextElements.{
  TextElements, TextElementError, SetTextElementsResult, set_text_elements, checked_elements,
  write_elements, locked_write, text_elements_answer, decoded, some_elements, lock_uri_of,
}

module _ (a : Adt) (l : AdtLaws a) where
  -- A success whose handle the map has, or a failure with the handle `before` in the map.
  abbrev pub Settled :
      Text → Text → Result (TextElementError a.Failure) SetTextElementsResult × Session a → Type 0
  Settled key before x =
      ((r : SetTextElementsResult) × (x.0 ≡ ok r)
        × (handle_of (a.get x.1.lock_map key) ≡ r.lock_handle))
      ⊎ ((e : TextElementError a.Failure) × (x.0 ≡ err e)
          × (handle_of (a.get x.1.lock_map key) ≡ before))

  -- The lock is the call's, which found none, or the one that was there before.
  abbrev Whose : Bool → Text → Text → Type 0
  Whose auto before h = ((auto ≡ true) × (is_empty before ≡ true)) ⊎ ((auto ≡ false) × (before ≡ h))

  abbrev pub Unlocks : Text → Type 0
  Unlocks uri = (h : Text) (w : a.World) → is_ok (a.unlock_object uri h w).0 ≡ true

  answer-Settled :
      (s : Session a) (key uri before : Text) (auto : Bool) (r : SetTextElementsResult)
      (x : Result a.Failure (Unit {0}))
      → Unlocks uri
      → handle_of (a.get s.lock_map key) ≡ r.lock_handle
      → Whose auto before r.lock_handle
      → Settled key before (text_elements_answer a s key uri auto r x)
  unfolding text_elements_answer
  answer-Settled s key uri before auto r (ok _) unlocks own was = inl (r, refl, own)
  answer-Settled s key uri before auto r (err e) unlocks own was = inr (
    _,
    refl,
    ground (
      arith,
      release_cases a l s key uri r.lock_handle key,
      unlocks r.lock_handle s.world,
      text_eq_refl key,
      own,
      was,
    ),
  )

  locked-Settled :
      (s : Session a) (t : TextElements a) (key uri before : Text) (auto : Bool)
      (symbols : List a.TextSymbol) (selections : List a.SelectionText) (x : Result a.Failure Text)
      → Unlocks uri
      → ((h : Text) → x ≡ ok h → handle_of (a.get s.lock_map key) ≡ h)
      → ((h : Text) → x ≡ ok h → Whose auto before h)
      → ((e : a.Failure) → x ≡ err e → handle_of (a.get s.lock_map key) ≡ before)
      → Settled key before (locked_write a s t key uri auto symbols selections x)
  unfolding locked_write
  locked-Settled s t key uri before auto symbols selections (err e) unlocks own was kept =
      inr (_, refl, kept e refl)
  locked-Settled s t key uri before auto symbols selections (ok h) unlocks own was kept =
      answer-Settled _ key uri before auto _ _ unlocks (own h refl) (was h refl)

  elements-Settled :
      (s : Session a) (t : TextElements a) (uri : Text) (symbols : List a.TextSymbol)
      (selections : List a.SelectionText)
      → t.handle ≡ []
      → Unlocks uri
      → let key = a.lock_key s.active uri in
        Settled key
          (handle_of (a.get s.lock_map key))
          (write_elements a s t (ok (uri, symbols, selections)))
  unfolding write_elements lock_pre_existed
  elements-Settled s t uri symbols selections no_handle unlocks =
      let key = a.lock_key s.active uri in
      let before = handle_of (a.get s.lock_map key) in
      let cached = l.resolve_cached key uri s.lock_map s.world in
      rw no_handle (
        locked-Settled _ (record t { handle = [] }) key uri before _ symbols selections
          (a.resolve_lock key uri [] s.lock_map s.world).0 unlocks
          (λ h p. l.resolve_stores key uri s.lock_map s.world h p)
          (λ h p. elim (Bool-cases (is_empty before)) [
            | inl q ↦ inl (ground arith, q)
            | inr q ↦ inr (ground arith, ground (arith, cached))
          ])
          (λ e p.
            ap (λ m. handle_of (a.get m key)) (l.resolve_error key uri s.lock_map s.world e p)))

  checked_uri :
      (t : TextElements a) (uri : Text) (x : Text × List a.TextSymbol × List a.SelectionText)
      → a.text_element_lock_uri t.uri ≡ ok uri
      → checked_elements a t ≡ ok x
      → x.0 ≡ uri
  unfolding checked_elements decoded some_elements lock_uri_of
  checked_uri t uri x h p = ground arith

  checked-Settled :
      (s : Session a) (t : TextElements a) (uri : Text)
      → a.text_element_lock_uri t.uri ≡ ok uri
      → t.handle ≡ []
      → Unlocks uri
      → let key = a.lock_key s.active uri in
        Settled key (handle_of (a.get s.lock_map key)) (write_elements a s t (checked_elements a t))
  unfolding write_elements
  checked-Settled s t uri lock_uri no_handle unlocks = elim (Result-cases (checked_elements a t)) [
    | inl (x, p) ↦
        let same : x ≡ (uri, x.1, x.2) = ap (λ u. (u, x.1, x.2)) (checked_uri t uri x lock_uri p) in
        rw (p ∙ ap ok same) (elements-Settled s t uri x.1 x.2 no_handle unlocks)
    | inr (e, p) ↦ rw p (inr (e, refl, refl))
  ]

  -- `set_text_elements` without a handle, on text elements whose lock SAP always releases: a success
  -- reports the handle that the lock map now has for them; a failure, at whatever step, leaves
  -- the handle that the map had before: a lock of the call is gone, one of the caller is kept.
  pub set_text_elements_lem :
      (s : Session a) (t : TextElements a) (uri : Text)
      → a.text_element_lock_uri t.uri ≡ ok uri
      → t.handle ≡ []
      → Unlocks uri
      → let key = a.lock_key s.active uri in
        Settled key (handle_of (a.get s.lock_map key)) (set_text_elements a s t)
  unfolding set_text_elements write_elements
  set_text_elements_lem s t uri lock_uri no_handle unlocks = elim (Bool-cases (is_empty t.uri)) [
    | inl p ↦ rw p (inr (_, refl, refl))
    | inr p ↦ rw p (checked-Settled s t uri lock_uri no_handle unlocks)
  ]
