-- ===== src/Reads/Order.antt =====
-- `get_source` on a list: the order in which its goroutines finish does not matter.
use aibap_mcp.Base.{
  ℕ, zero, suc, ◌+◌, ◌≤◌, ◌≡◌, refl, sym, ◌∙◌, ap, inl, inr, Bool, true, false, ◌&&◌, ◌||◌, none,
  some, List, [], ◌∷◌, is_empty, length, length-map, if◌then◌else◌, ◌==◌, Option-cases, Bool-cases,
  arith,
}
use mathlib.Core.List.{map}
use aibap_mcp.Reads.Multi.{
  SourceMultiEntry, Job, blank, entry_of, nth, set_at, finish, finish_all, count_newlines, tally,
  report, get_source_multi,
}

-- An index is among those that finished.
unfoldable pub done : List ℕ → ℕ → Bool
done [] i = false
done (j ∷ js) i = (i == j) || done js i

-- Every goroutine finishes: `wg.Wait()`.
unfoldable pub all_done : List ℕ → ℕ → List Job → Bool
unfolding done
all_done order i [] = true
all_done order i (job ∷ jobs) = done order i && all_done order (suc i) jobs

-- The results while some goroutines have finished.
fill : (ℕ → Bool) → ℕ → List Job → List SourceMultiEntry
unfolding entry_of
fill p i [] = []
fill p i (job ∷ jobs) = (if p i then entry_of job else blank) ∷ fill p (suc i) jobs

fill_ext :
    (p q : ℕ → Bool) (i : ℕ) (jobs : List Job)
    → ((k : ℕ) → i ≤ k → p k ≡ q k)
    → fill p i jobs ≡ fill q i jobs
unfolding fill
fill_ext p q i [] h = refl
fill_ext p q i (job ∷ jobs) h =
    let here = h i (omega arith) in
    let rest = fill_ext p q (suc i) jobs (λ k le. h k (omega (arith, le))) in
    ground (arith, here, rest)

fill-set_at :
    (p : ℕ → Bool) (i k : ℕ) (jobs : List Job) (job : Job)
    → nth jobs k ≡ some job
    → set_at k (entry_of job) (fill p i jobs) ≡ fill (λ j. (j == i + k) || p j) i jobs
unfolding fill set_at
fill-set_at p i k [] job h = absurd (ground (arith, h))
fill-set_at p i zero (x ∷ jobs) job h =
    let rest = fill_ext p (λ j. (j == i + 0) || p j) (suc i) jobs (λ k le. ground (arith, le)) in
    ground (arith, h, rest)
fill-set_at p i (suc k) (x ∷ jobs) job h =
    let rest = fill-set_at p (suc i) k jobs job h in
    let same =
      fill_ext (λ j. (j == suc i + k) || p j) (λ j. (j == i + suc k) || p j) (suc i) jobs
        (λ j le. ground (arith, le)) in
    ground (arith, rest, same)

fill_outside :
    (p : ℕ → Bool) (i k : ℕ) (jobs : List Job)
    → nth jobs k ≡ none
    → fill p i jobs ≡ fill (λ j. (j == i + k) || p j) i jobs
unfolding fill
fill_outside p i k [] h = refl
fill_outside p i zero (x ∷ jobs) h = absurd (ground (arith, h))
fill_outside p i (suc k) (x ∷ jobs) h =
    let rest = fill_outside p (suc i) k jobs h in
    let same =
      fill_ext (λ j. (j == suc i + k) || p j) (λ j. (j == i + suc k) || p j) (suc i) jobs
        (λ j le. ground (arith, le)) in
    ground (arith, rest, same)

finish_lem :
    (jobs : List Job) (i : ℕ) (p : ℕ → Bool)
    → finish jobs i (fill p 0 jobs) ≡ fill (λ j. (j == i) || p j) 0 jobs
unfolding finish
finish_lem jobs i p = elim (Option-cases (nth jobs i)) [
  | inl q ↦ ground (arith, q, fill_outside p 0 i jobs q)
  | inr (job, q) ↦ ground (arith, q, fill-set_at p 0 i jobs job q)
]

finish_all_lem :
    (jobs : List Job) (order : List ℕ) (p : ℕ → Bool)
    → finish_all jobs order (fill p 0 jobs) ≡ fill (λ j. done order j || p j) 0 jobs
unfolding finish_all done
finish_all_lem jobs [] p = refl
finish_all_lem jobs (i ∷ is) p =
    ap (finish_all jobs is) (finish_lem jobs i p)
    ∙ finish_all_lem jobs is (λ j. (j == i) || p j)
    ∙ fill_ext (λ j. done is j || ((j == i) || p j)) (λ j. ((j == i) || done is j) || p j) 0 jobs
        (λ k le. ground arith)

fill-all_done :
    (order : List ℕ) (i : ℕ) (jobs : List Job)
    → all_done order i jobs ≡ true
    → fill (λ j. done order j || false) i jobs ≡ map entry_of jobs
unfolding fill all_done
fill-all_done order i [] h = refl
fill-all_done order i (job ∷ jobs) h = ground (arith, h, fill-all_done order (suc i) jobs)

fill_none : (i : ℕ) (jobs : List Job) → fill (λ j. false) i jobs ≡ map (λ job. blank) jobs
unfolding fill
fill_none i [] = refl
fill_none i (job ∷ jobs) = ground (arith, fill_none (suc i) jobs)

-- The tally as a count of the entries, for any start of the counters.
unfoldable pub failures : List SourceMultiEntry → ℕ
failures [] = 0
failures (r ∷ rs) = let n = failures rs in if is_empty r.error then n else suc n

tally_lem :
    (rs : List SourceMultiEntry) (s f l : ℕ)
    → ((tally rs s f l).0 + (tally rs s f l).1 ≡ (s + f) + length rs)
      × ((tally rs s f l).1 ≡ f + failures rs)
unfolding tally failures
tally_lem [] s f l = (omega arith, omega arith)
tally_lem (r ∷ rs) s f l = elim (Bool-cases (is_empty r.error)) [
  | inl q ↦ ground (arith, q, tally_lem rs (suc s) f (l + count_newlines r.source))
  | inr q ↦ ground (arith, q, tally_lem rs s (suc f) l)
]

-- In whatever order the goroutines of `get_source` finish, and however often an index is listed, if
-- each finishes, the results are those of the objects in the order of the call. Each object counts
-- once, as failed if its error is not empty and else as succeeded.
pub get_source_multi_lem :
    (jobs : List Job) (order : List ℕ)
    → all_done order 0 jobs ≡ true
    → let r = get_source_multi jobs order in
      (r.results ≡ map entry_of jobs)
      × (r.total ≡ length jobs)
      × (r.succeeded + r.failed ≡ r.total)
      × (r.failed ≡ failures (map entry_of jobs))
unfolding get_source_multi report
get_source_multi_lem jobs order h =
    let results =
      ap (finish_all jobs order) (sym (fill_none 0 jobs))
      ∙ finish_all_lem jobs order (λ j. false)
      ∙ fill-all_done order 0 jobs h in
    (
      results,
      length-map jobs (λ job. job.0),
      ground (
        arith,
        results,
        tally_lem (map entry_of jobs) 0 0 0,
        length-map jobs (λ job. job.0),
        length-map jobs entry_of,
      ),
      ground (arith, results, tally_lem (map entry_of jobs) 0 0 0),
    )
