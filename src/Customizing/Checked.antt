-- ===== src/Customizing/Checked.antt =====
-- `update_customizing` writes all entries or none.
use aibap_mcp.Base.{
  ℕ, suc, ◌≡◌, refl, inl, inr, Bool, true, false, ◌&&◌, ◌||◌, not, none, some, List, [], ◌∷◌, Text,
  bytes, text_eq, text_eq_iff, all, if◌then◌else◌, is_ok, Option-cases, arith,
}
use aibap_mcp.Transports.{CustomizingEntry, BlackMagicClient}
use aibap_mcp.Customizing.{has_none, check_op, check_entry, check_entries, write_entries}

-- An entry has keys; it inserts or updates and has values, or it deletes and has none.
unfoldable pub is_valid : CustomizingEntry → Bool
is_valid e =
    not (has_none e.keys)
    && (((has_none e.op || text_eq e.op (bytes "upsert")) && not (has_none e.values))
        || (text_eq e.op (bytes "delete") && has_none e.values))

check_entry_lem :
    (e : CustomizingEntry) → is_valid e ≡ elim (check_entry e) [ none ↦ true | some _ ↦ false ]
unfolding is_valid check_entry check_op text_eq
check_entry_lem e =
    ground (arith, text_eq_iff e.op (bytes "upsert"), text_eq_iff e.op (bytes "delete"))

check_entries_lem :
    (i : ℕ) (es : List CustomizingEntry)
    → all is_valid es ≡ elim (check_entries i es) [ none ↦ true | some _ ↦ false ]
unfolding all check_entries
check_entries_lem i [] = refl
check_entries_lem i (e ∷ es) =
    ground (arith, check_entry_lem e, check_entries_lem (suc i) es, Option-cases (check_entry e))

-- With a fallback, `update_customizing` passes its entries to the fallback, all at once, if every
-- entry is valid, and then succeeds exactly if the fallback does. If some entry is not valid, it
-- fails, and the outside is as it was.
pub write_entries_lem :
    {W : Type 0} (fb : BlackMagicClient W) (table transport : Text)
    (entries : List CustomizingEntry) (w : W)
    → let (answer, w') = write_entries (some fb) table transport entries w in
      let (fb_answer, written) = fb.update_customizing table entries transport w in
      (is_ok answer ≡ (all is_valid entries && is_ok fb_answer))
      × (w' ≡ (if all is_valid entries then written else w))
unfolding write_entries
write_entries_lem fb table transport entries w = elim (Option-cases (check_entries 0 entries)) [
  | inl q ↦ ground (arith, q, check_entries_lem 0 entries)
  | inr (_, q) ↦ ground (arith, q, check_entries_lem 0 entries)
]
