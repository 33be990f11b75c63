-- ===== src/Errors/Retry.antt =====
-- When tools/errors.go advises to call the tool once more.
use aibap_mcp.Base.{
  ◌≡◌, ◌||◌, inl, inr, Bool, true, false, Option, none, some, List, [], ◌∷◌, Text, to_lower,
  Option-cases, arith,
}
use aibap_mcp.Errors.{ErrorKind, server_error, SyncCode, AdtError, Failure, Classifier, is_kind}
use aibap_mcp.Errors.Hints.{
  Hint, server_error_hint, abap_git_hint_by_code, abap_git_sync_hint, hint_by_kind, save_conflict,
  fallback_hint, kind_hint, after_save_conflict, after_cleanup_error, match_hint,
}

-- Whether the advice to retry is among the hints.
abbrev is_retry : Hint → Bool
is_retry server_error_hint = true
is_retry _ = false

abbrev pub advises_retry : List Hint → Bool
advises_retry [] = false
advises_retry (h ∷ hs) = is_retry h || advises_retry hs

abbrev Retries : List Hint → Type 0
Retries hints = advises_retry hints ≡ true

-- What a function says of an error of ADT, if there is one.
abbrev pub about {ℓ κ} : {A : Type ℓ} {B : Type κ} → Option A → (A → Option B) → Option B
about none f = none
about (some a) f = f a

code_lem : (code : SyncCode) → advises_retry (abap_git_hint_by_code code) ≡ false
unfolding abap_git_hint_by_code
code_lem code = ground arith

companion_lem :
    (e : Failure) (hints : List Hint)
    → abap_git_sync_hint e ≡ some hints
    → advises_retry hints ≡ false
unfolding abap_git_sync_hint
companion_lem e hints q = elim (Option-cases e.sync_error) [
  | inl n ↦ ground (arith, n, q)
  | inr (s, n) ↦ ground (arith, n, q, code_lem s.code)
]

companion_none :
    (e : Failure)
    → abap_git_sync_hint e ≡ none
    → (e.sync_error ≡ none) × (e.sync_not_installed ≡ false)
unfolding abap_git_sync_hint
companion_none e q = elim (Option-cases e.sync_error) [
  | inl n ↦ ground (arith, n, q)
  | inr (s, n) ↦ absurd (ground (arith, n, q))
]

kind_lem :
    (kind : ErrorKind) (x : Hint)
    → hint_by_kind kind ≡ some x
    → is_retry x ≡ true
    → kind ≡ server_error
unfolding hint_by_kind
kind_lem kind x h q = ground arith

module _ (c : Classifier) where
  open c use {classify_error, locking_transport, is_enqueue_lock}

  kind_hint_lem :
      (kind : ErrorKind) (adt_err : Option AdtError) (text : Text)
      → Retries (kind_hint c kind adt_err text)
      → kind ≡ server_error
  unfolding kind_hint fallback_hint
  kind_hint_lem kind adt_err text h = elim (Option-cases (hint_by_kind kind)) [
    | inl q ↦ absurd (ground (arith, q, h))
    | inr (x, q) ↦ kind_lem kind x q (ground (arith, q, h))
  ]

  later_lem :
      (kind : ErrorKind) (adt_err : Option AdtError) (text : Text)
      → Retries (after_save_conflict c kind adt_err text)
      → (kind ≡ server_error) × (about adt_err is_enqueue_lock ≡ none)
  unfolding after_save_conflict
  later_lem kind none text h = ground (arith, h, kind_hint_lem kind none text)
  later_lem kind (some a) text h = elim (Option-cases (is_enqueue_lock a)) [
    | inl u ↦ ground (arith, u, h, kind_hint_lem kind (some a) text)
    | inr (_, u) ↦ absurd (ground (arith, u, h))
  ]

  conflict_lem :
      (kind : ErrorKind) (adt_err : Option AdtError) (text : Text)
      → Retries (after_cleanup_error c kind adt_err text)
      → (kind ≡ server_error)
        × (about adt_err (save_conflict c) ≡ none)
        × (about adt_err is_enqueue_lock ≡ none)
  unfolding after_cleanup_error
  conflict_lem kind none text h = ground (arith, h, later_lem kind none text)
  conflict_lem kind (some a) text h = elim (Option-cases (locking_transport a)) [
    | inl l ↦ elim (Option-cases (save_conflict c a)) [
      | inl q ↦ ground (arith, l, q, h, later_lem kind (some a) text)
      | inr (_, q) ↦ absurd (ground (arith, l, q, h))
    ]
    | inr (_, l) ↦ elim (Option-cases (save_conflict c a)) [
      | inl q ↦ ground (arith, l, q, h, later_lem kind (some a) text)
      | inr (_, q) ↦ absurd (ground (arith, l, q, h))
    ]
  ]

  -- If the advice to retry once is among the hints, the error is classified as a server error, does
  -- not come from the abapGit companion, left no program of `verify_source` behind, and is neither
  -- a transport conflict nor the lock of a user.
  pub match_hint_retry :
      (e : Failure)
      → advises_retry (match_hint c e) ≡ true
      → (classify_error e ≡ server_error)
        × (e.sync_error ≡ none)
        × (e.sync_not_installed ≡ false)
        × (e.verify_cleanup ≡ none)
        × (about e.adt_error (save_conflict c) ≡ none)
        × (about e.adt_error is_enqueue_lock ≡ none)
  unfolding match_hint is_kind
  match_hint_retry e h = elim (Option-cases (abap_git_sync_hint e)) [
    | inl q ↦ elim (Option-cases e.verify_cleanup) [
      | inl v ↦
          let (n, i) = companion_none e q in
          let r = conflict_lem (classify_error e) e.adt_error (to_lower e.text) in
          ground (arith, q, v, h, n, i, r)
      | inr (_, v) ↦ absurd (ground (arith, q, v, h))
    ]
    | inr (hints, q) ↦ absurd (ground (arith, q, h, companion_lem e hints q))
  ]
