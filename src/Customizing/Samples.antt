-- ===== src/Customizing/Samples.antt =====
-- `update_customizing` on an entry to insert and one to delete.
use aibap_mcp.Base.{text_eq, ◌≡◌, refl, some, [], ◌∷◌, bytes, all, ◌&&◌, is_ok, if◌then◌else◌}
use aibap_mcp.Transports.{CustomizingEntry}
use aibap_mcp.Transports.Samples.{gui}
use aibap_mcp.Customizing.{check_entries, no_upsert_values, write_entries}
use aibap_mcp.Customizing.Checked.{is_valid, write_entries_lem}

abbrev added : CustomizingEntry
added = record { keys = (bytes "A", bytes "1") ∷ []; values = (bytes "B", bytes "2") ∷ []; op = [] }

abbrev dropped : CustomizingEntry
dropped = record { keys = (bytes "A", bytes "3") ∷ []; values = []; op = bytes "delete" }

second_without_values :
    check_entries 0 (added ∷ record dropped { op = bytes "upsert" } ∷ [])
    ≡ some (1, no_upsert_values)
unfolding check_entries text_eq
second_without_values = refl

write_entries_lem_example :
    let (answer, w') = write_entries (some gui) (bytes "T001W") [] (added ∷ dropped ∷ []) [] in
    let (fb_answer, written) =
      gui.update_customizing (bytes "T001W") (added ∷ dropped ∷ []) [] [] in
    (is_ok answer ≡ (all is_valid (added ∷ dropped ∷ []) && is_ok fb_answer))
    × (w' ≡ (if all is_valid (added ∷ dropped ∷ []) then written else []))
write_entries_lem_example = write_entries_lem gui (bytes "T001W") [] (added ∷ dropped ∷ []) []
