-- ===== src/Locks/TextElements.antt =====
-- `set_text_elements` of tools/textelements.go: its arguments, its own lock and its roll-back. The
-- JSON arguments come decoded; an empty one is `none`.
pub mod Rollback
use aibap_mcp.Base.{
  ℕ, Bool, true, not, ◌&&◌, Option, none, some, List, [], ◌∷◌, Text, is_empty, length, ◌==◌, Result,
  ok, err, ◌>>=◌, if◌then◌else◌,
}
use aibap_mcp.Locks.Adt.{Adt}
use aibap_mcp.Locks.Session.{Session, track}
use aibap_mcp.Locks.WriteLock.{lock_pre_existed, release_auto_lock}

pub data TextElementError (F : Type 0) : Type 0 where
  uri_required nothing_to_write : TextElementError F
  invalid_symbols invalid_selections no_lock_uri : Text → TextElementError F
  lock_refused write_refused : F → TextElementError F

pub record SetTextElementsResult : Type 0 where
  pub success : Bool
  pub object_uri : Text
  pub symbols_count : ℕ
  pub selections_count : ℕ
  pub lock_handle : Text

decoded : {E A : Type 0} → (Text → E) → Option (Result Text (List A)) → Result E (List A)
decoded invalid none = ok []
decoded invalid (some (err text)) = err (invalid text)
decoded invalid (some (ok xs)) = ok xs

lock_uri_of : {F : Type 0} → Result Text Text → Result (TextElementError F) Text
lock_uri_of (err text) = err (no_lock_uri text)
lock_uri_of (ok uri) = ok uri

module _ (a : Adt) where
  pub record TextElements : Type 0 where
    pub uri : Text
    pub transport : Text
    pub handle : Text
    pub symbols : Option (Result Text (List a.TextSymbol))
    pub selections : Option (Result Text (List a.SelectionText))

  some_elements :
      List a.TextSymbol
      → List a.SelectionText
      → Result (TextElementError a.Failure) (List a.TextSymbol × List a.SelectionText)
  some_elements symbols selections =
      if length symbols == 0 && length selections == 0
      then err nothing_to_write
      else ok (symbols, selections)

  -- The checks, and the URI of the lock.
  pub checked_elements :
      TextElements
      → Result (TextElementError a.Failure) (Text × List a.TextSymbol × List a.SelectionText)
  unfolding decoded lock_uri_of some_elements
  checked_elements t = do
    symbols ← decoded invalid_symbols t.symbols
    selections ← decoded invalid_selections t.selections
    both ← some_elements symbols selections
    lock_uri ← lock_uri_of (a.text_element_lock_uri t.uri)
    ok (lock_uri, both.0, both.1)

  -- The answer of `SetTextElements`.
  unfoldable pub text_elements_answer :
      Session a
      → Text
      → Text
      → Bool
      → SetTextElementsResult
      → Result a.Failure (Unit {0})
      → Result (TextElementError a.Failure) SetTextElementsResult × Session a
  text_elements_answer s key lock_uri auto r (ok _) = (ok r, s)
  text_elements_answer s key lock_uri auto r (err e) = (
    err (write_refused e),
    (if auto then release_auto_lock a s key lock_uri r.lock_handle else s),
  )

  -- The answer of `ResolveLock`.
  unfoldable pub locked_write :
      Session a
      → TextElements
      → Text
      → Text
      → Bool
      → List a.TextSymbol
      → List a.SelectionText
      → Result a.Failure Text
      → Result (TextElementError a.Failure) SetTextElementsResult × Session a
  unfolding text_elements_answer
  locked_write s t key lock_uri auto symbols selections (err e) = (err (lock_refused e), s)
  locked_write s t key lock_uri auto symbols selections (ok h) =
      let tracking = track s.tracker key in
      let (answer, w) = a.set_text_elements t.uri symbols selections h t.transport s.world in
      text_elements_answer (record s { world = w; tracker = tracking }) key lock_uri auto
        (record {
          success = true;
          object_uri = t.uri;
          symbols_count = length symbols;
          selections_count = length selections;
          lock_handle = h;
        })
        answer

  unfoldable pub write_elements :
      Session a
      → TextElements
      → Result (TextElementError a.Failure) (Text × List a.TextSymbol × List a.SelectionText)
      → Result (TextElementError a.Failure) SetTextElementsResult × Session a
  unfolding locked_write
  write_elements s t (err e) = (err e, s)
  write_elements s t (ok (lock_uri, symbols, selections)) =
      let key = a.lock_key s.active lock_uri in
      let auto = not (lock_pre_existed a s.lock_map key t.handle) in
      let (answer, m, w) = a.resolve_lock key lock_uri t.handle s.lock_map s.world in
      locked_write (record s { world = w; lock_map = m }) t key lock_uri auto symbols selections
        answer

  unfoldable pub set_text_elements :
      Session a
      → TextElements
      → Result (TextElementError a.Failure) SetTextElementsResult × Session a
  unfolding checked_elements write_elements
  set_text_elements s t =
      if is_empty t.uri then (err uri_required, s) else write_elements s t (checked_elements t)
