-- ===== src/Reads/Multi.antt =====
-- `get_source` of tools/source.go on a list of objects: one goroutine per object, each of which
-- writes its own result when SAP has answered. What SAP answers is an argument; the order in which
-- the goroutines finish is a list of their indices.
use aibap_mcp.Base.{
  ℕ, zero, suc, ◌+◌, Option, none, some, List, [], ◌∷◌, Text, is_empty, length, if◌then◌else◌,
  Result, ok, err, ◌==◌,
}
use mathlib.Core.List.{map}
use aibap_mcp.Debug.Values.{Value, string, list, Values, no_values, value}

-- `getStringOrSlice`: one text, or a list of texts, without the elements that are none.
unfoldable pub strings_of : Values → List Text
strings_of no_values = []
strings_of (value (string s) vs) = s ∷ strings_of vs
strings_of (value _ vs) = strings_of vs

unfoldable pub get_string_or_slice : Value → Text × Option (List Text)
unfolding strings_of
get_string_or_slice (string s) = (s, none)
get_string_or_slice (list vs) = ([], some (strings_of vs))
get_string_or_slice _ = ([], none)

-- `SourceMultiEntry`, and `SourceResult` of adtler.
pub record SourceMultiEntry : Type 0 where
  pub object_uri : Text
  pub source : Text
  pub etag : Text
  pub error : Text

pub record SourceMultiResult : Type 0 where
  pub total : ℕ
  pub succeeded : ℕ
  pub failed : ℕ
  pub total_lines : ℕ
  pub results : List SourceMultiEntry

-- An object with what SAP answers for it: an error by its text, or the source and its ETag.
abbrev pub Job : Type 0
Job = Text × Result Text (Text × Text)

abbrev pub blank : SourceMultiEntry
blank = record { object_uri = []; source = []; etag = []; error = [] }

unfoldable pub entry_of : Job → SourceMultiEntry
entry_of (uri, err e) = record { object_uri = uri; source = []; etag = []; error = e }
entry_of (uri, ok (source, etag)) = record {
  object_uri = uri;
  source = source;
  etag = etag;
  error = [];
}

abbrev pub nth {ℓ} : {A : Type ℓ} → List A → ℕ → Option A
nth [] i = none
nth (x ∷ xs) zero = some x
nth (x ∷ xs) (suc i) = nth xs i

-- `results[i] = e`
unfoldable pub set_at {ℓ} : {A : Type ℓ} → ℕ → A → List A → List A
set_at i e [] = []
set_at zero e (x ∷ xs) = e ∷ xs
set_at (suc i) e (x ∷ xs) = x ∷ set_at i e xs

-- The goroutine with an index finishes.
unfoldable pub finish : List Job → ℕ → List SourceMultiEntry → List SourceMultiEntry
unfolding set_at entry_of
finish jobs i results = elim (nth jobs i) [
  | none ↦ results
  | some job ↦ set_at i (entry_of job) results
]

unfoldable pub finish_all : List Job → List ℕ → List SourceMultiEntry → List SourceMultiEntry
unfolding finish
finish_all jobs [] results = results
finish_all jobs (i ∷ is) results = finish_all jobs is (finish jobs i results)

-- The counts, in one pass over the results.
pub count_newlines : Text → ℕ
count_newlines [] = 0
count_newlines (c ∷ s) = let n = count_newlines s in if c == b'\n' then suc n else n

unfoldable pub tally : List SourceMultiEntry → ℕ → ℕ → ℕ → ℕ × ℕ × ℕ
unfolding count_newlines
tally [] succeeded failed lines = (succeeded, failed, lines)
tally (r ∷ rs) succeeded failed lines =
    let good = tally rs (suc succeeded) failed (lines + count_newlines r.source) in
    let bad = tally rs succeeded (suc failed) lines in if is_empty r.error then good else bad

unfoldable pub report : List Text → List SourceMultiEntry → SourceMultiResult
unfolding tally
report uris results =
    let (succeeded, failed, lines) = tally results 0 0 0 in
    record {
      total = length uris;
      succeeded = succeeded;
      failed = failed;
      total_lines = lines;
      results = results;
    }

-- `get_source` with a list: `jobs` has the list's objects, `order` the order of the goroutines.
unfoldable pub get_source_multi : List Job → List ℕ → SourceMultiResult
unfolding finish_all report
get_source_multi jobs order =
    report (map (λ job. job.0) jobs) (finish_all jobs order (map (λ job. blank) jobs))
