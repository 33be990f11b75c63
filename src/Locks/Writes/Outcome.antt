-- ===== src/Locks/Writes/Outcome.antt =====
-- The ways in which a write tool can end, and that each of the three tools ends in one of them.
use aibap_mcp.Base.{
  ◌≡◌, ◌∙◌, refl, ap, sym, Bool, true, false, some, none, List, [], ◌∷◌, Text, text_eq, is_empty,
  trim_space, Result, ok, err, Bool-cases, bytes, inl, inr,
}
use aibap_mcp.Locks.Adt.{Adt, AdtLaws, handle_of}
use aibap_mcp.Locks.Session.{Session, Error, sap, auto_lock_failed, empty_parameter}
use aibap_mcp.Locks.WriteLock.{Resolved, resolve_write_lock_handle}
use aibap_mcp.Locks.Writes.{
  patch_store, patch_apply, patch_locked, patch_source, file_etag, file_locked,
  set_source_from_file, include_answer, include_locked, set_include_source_tool, Write, patch,
  from_file, to_include, write, uri_of, explicit_of, allows_auto_lock,
}
use aibap_mcp.Locks.Store.{Written, roll_back, fail, stored, store}

module _ (a : Adt) where
  -- The map holds the same handle for the key, all else of the map is the same, and so is the tracker.
  pub record SameLocks (key : Text) (s s' : Session a) : Type 0 where
    pub own : handle_of (a.get s'.lock_map key) ≡ handle_of (a.get s.lock_map key)
    pub rest : (j : Text) → text_eq key j ≡ false → a.get s'.lock_map j ≡ a.get s.lock_map j
    pub keys : s'.tracker ≡ s.tracker

  abbrev Answer : Type 0
  Answer = Result (Error a.Failure) Written × Session a

  -- After the lock was resolved to `r` in the state `s`.
  pub data Ends (key uri : Text) (r : Resolved) (s : Session a) (out : Answer) : Type 0 where
    failed :
        (e : Error a.Failure) (s' : Session a)
        → SameLocks key s s'
        → out ≡ (err e, roll_back a s' key uri r)
        → Ends key uri r s out
    done :
        (w : Written) (s' : Session a)
        → SameLocks key s s'
        → w.lock_handle ≡ r.handle
        → out ≡ (ok w, s')
        → Ends key uri r s out

  pub data Outcome (s : Session a) (key uri explicit : Text) (allow : Bool) (out : Answer)
      : Type 0 where
    refused : (e : Error a.Failure) → out ≡ (err e, s) → Outcome s key uri explicit allow out
    unresolved :
        (e e' : Error a.Failure)
        → (resolve_write_lock_handle a s key uri explicit allow).0 ≡ err e
        → out ≡ (err e', (resolve_write_lock_handle a s key uri explicit allow).1)
        → Outcome s key uri explicit allow out
    resolved :
        (r : Resolved)
        → (resolve_write_lock_handle a s key uri explicit allow).0 ≡ ok r
        → Ends key uri r (resolve_write_lock_handle a s key uri explicit allow).1 out
        → Outcome s key uri explicit allow out

  module _ (l : AdtLaws a) where
    -- A request changes the world alone.
    moved : (key : Text) (s : Session a) (w : a.World) → SameLocks key s (record s { world = w })
    moved key s w = record { own = refl; rest = λ j h. refl; keys = refl }

    moved_from :
        (key : Text) (s s' : Session a) (w : a.World)
        → SameLocks key s s'
        → SameLocks key s (record s' { world = w })
    moved_from key s s' w same = record { own = same.own; rest = same.rest; keys = same.keys }

    fail-Ends :
        (s s' : Session a) (key uri : Text) (r : Resolved) (e : Error a.Failure)
        → SameLocks key s s'
        → Ends key uri r s (fail a s' key uri r e)
    unfolding fail
    fail-Ends s s' key uri r e same = failed e s' same refl

    stored-Ends :
        (s s' : Session a) (key uri : Text) (r : Resolved) (locked : Bool)
        (answer : Result a.Failure Text)
        → SameLocks key s s'
        → Ends key uri r s (stored a s' key uri r locked answer)
    unfolding stored
    stored-Ends s s' key uri r locked (err x) same = fail-Ends s s' key uri r (sap x) same
    stored-Ends s s' key uri r locked (ok x) same =
        done (record { locked = locked; lock_handle = r.handle; etag = x })
          (record s' { lock_map = a.update_etag s'.lock_map key x })
          (record {
            own = l.handle-update_etag s'.lock_map key x ∙ same.own;
            rest = λ j h. l.get-update_etag_ne s'.lock_map key x j h ∙ same.rest j h;
            keys = same.keys;
          })
          refl refl

    patch_store-Ends :
        (s s' : Session a) (key uri transport : Text) (r : Resolved) (etag : Text)
        (patched : Result a.Failure Text)
        → SameLocks key s s'
        → Ends key uri r s (patch_store a s' key uri transport r etag patched)
    unfolding patch_store store
    patch_store-Ends s s' key uri transport r etag (err x) same = fail-Ends s s' key uri r _ same
    patch_store-Ends s s' key uri transport r etag (ok source) same =
        stored-Ends s _ key uri r r.auto_locked _ (moved_from key s s' _ same)

    patch_apply-Ends :
        (s s' : Session a) (key uri transport : Text) (r : Resolved) (ops : List a.PatchOp)
        (answer : Result a.Failure (Text × Text))
        → SameLocks key s s'
        → Ends key uri r s (patch_apply a s' key uri transport r ops answer)
    unfolding patch_apply
    patch_apply-Ends s s' key uri transport r ops (err x) same = fail-Ends s s' key uri r _ same
    patch_apply-Ends s s' key uri transport r ops (ok (source, etag)) same =
        patch_store-Ends s s' key uri transport r etag (a.apply_patch_ops source ops) same

    file_etag-Ends :
        (s s' : Session a) (key uri transport : Text) (r : Resolved) (source : Text)
        (answer : Result a.Failure Text)
        → SameLocks key s s'
        → Ends key uri r s (file_etag a s' key uri transport r source answer)
    unfolding file_etag store
    file_etag-Ends s s' key uri transport r source (err x) same = fail-Ends s s' key uri r _ same
    file_etag-Ends s s' key uri transport r source (ok etag) same =
        stored-Ends s _ key uri r true _ (moved_from key s s' _ same)

    include_answer-Ends :
        (s s' : Session a) (key uri : Text) (r : Resolved) (answer : Result a.Failure Text)
        → SameLocks key s s'
        → Ends key uri r s (include_answer a s' key uri r answer)
    unfolding include_answer
    include_answer-Ends s s' key uri r (err x) same = fail-Ends s s' key uri r _ same
    include_answer-Ends s s' key uri r (ok etag) same = done _ s' same refl refl

    -- What follows the resolution, given the resolution's answer.
    after_resolve :
        (s : Session a) (key uri explicit : Text) (allow : Bool)
        (f : Result (Error a.Failure) Resolved × Session a → Answer)
        → ((e : Error a.Failure) (s' : Session a)
            → (e' : Error a.Failure) × (f (err e, s') ≡ (err e', s')))
        → ((r : Resolved) (s' : Session a) → Ends key uri r s' (f (ok r, s')))
        → Outcome s key uri explicit allow
            (f (resolve_write_lock_handle a s key uri explicit allow))
    after_resolve s key uri explicit allow f on_error on_ok =
        let q = resolve_write_lock_handle a s key uri explicit allow in go q.0 q.1 refl refl
      where
        go :
            (x : Result (Error a.Failure) Resolved) (s' : Session a)
            → (resolve_write_lock_handle a s key uri explicit allow).0 ≡ x
            → (resolve_write_lock_handle a s key uri explicit allow).1 ≡ s'
            → Outcome s key uri explicit allow (f (x, s'))
        go (err e) s' p q =
            unresolved e (on_error e s').0 p
              ((on_error e s').1 ∙ ap (λ t. (err (on_error e s').0, t)) (sym q))
        go (ok r) s' p q = resolved r p (rw q (on_ok r s'))

    -- Every call of a write tool ends in one of the ways of `Outcome`, for the key of its object.
    pub write-Outcome :
        (s : Session a) (c : Write a)
        → Outcome s
            (a.lock_key s.active (uri_of a c))
            (uri_of a c)
            (explicit_of a c)
            (allows_auto_lock a c)
            (write a s c)
    unfolding write patch_source set_source_from_file set_include_source_tool
    write-Outcome s (patch uri transport explicit none) = refused _ refl
    write-Outcome s (patch uri transport explicit (some (err e))) = refused _ refl
    write-Outcome s (patch uri transport explicit (some (ok ops))) =
        let key = a.lock_key s.active uri in
        after_resolve s key uri explicit true (patch_locked a key uri transport ops)
          (λ e s'. (auto_lock_failed e, unfold patch_locked in refl))
          (λ r s'.
            unfold patch_locked in patch_apply-Ends s' _ key uri transport r ops _ (moved key s' _))
    write-Outcome s (from_file uri transport explicit (err e)) = refused _ refl
    write-Outcome s (from_file uri transport explicit (ok source)) =
        let key = a.lock_key s.active uri in
        after_resolve s key uri explicit true (file_locked a key uri transport source)
          (λ e s'. (auto_lock_failed e, unfold file_locked in refl))
          (λ r s'.
            unfold file_locked in
            file_etag-Ends s' _ key uri transport r source _ (record {
              own = l.resolve_etag_handle key uri s'.lock_map s'.world;
              rest = λ j h. l.resolve_etag_ne key uri s'.lock_map s'.world j h;
              keys = refl;
            }))
    write-Outcome s (to_include uri [] source etag explicit transport) = refused _ refl
    write-Outcome s (to_include uri (i ∷ nc) none etag explicit transport) = refused _ refl
    write-Outcome s (to_include uri (i ∷ nc) (some source) none explicit transport) = refused _ refl
    write-Outcome s (to_include uri (i ∷ nc) (some source) (some etag) explicit transport) =
        elim (Bool-cases (is_empty (trim_space source))) [
          | inl p ↦
              refused (empty_parameter (bytes "source")) (rw (p, write, set_include_source_tool))
          | inr p ↦ rw (p, write, set_include_source_tool) (include_outcome)
        ]
      where
        include_outcome : Outcome s (a.lock_key s.active uri) uri explicit false (
            include_locked a
              (a.lock_key s.active uri)
              uri
              (i ∷ nc)
              source
              transport
              etag
              (resolve_write_lock_handle a s (a.lock_key s.active uri) uri explicit false))
        include_outcome =
            let key = a.lock_key s.active uri in
            after_resolve s key uri explicit false
              (include_locked a key uri (i ∷ nc) source transport etag)
              (λ e s'. (e, unfold include_locked in refl))
              (λ r s'.
                unfold include_locked in include_answer-Ends s' _ key uri r _ (moved key s' _))
