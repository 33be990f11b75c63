-- ===== src/Transports/Fallbacks.antt =====
-- The four tools of Transports/Entries against one rule for the fallback.
use aibap_mcp.Base.{
  ◌≡◌, ◌++◌, inl, inr, Bool, true, false, Option, none, some, Text, bytes, if◌then◌else◌, ok, err,
  Result-cases, Option-cases, arith,
}
use aibap_mcp.Errors.{Classifier, is_kind, not_supported, wrap}
use aibap_mcp.Transports.{
  Step, TransportClient, TransportEntryFallback, TransportCopiesFallback, BlackMagicClient,
  AddToTransportResult, RemoveFromTransportResult, CopyTransportObjectsResult,
  AddPackageToTransportResult,
}
use aibap_mcp.Transports.Entries.{
  both_failed, fallback_answer, entry_fallback_for, copies_fallback_for, add_entry, remove_entry,
  copy_objects, add_package,
}

-- What a tool with a fallback promises: ADT is asked once; the fallback is asked once, and only
-- where ADT says that it does not support the call; all other answers of ADT are final.
-- The failure of both is the fallback's, with a text that has both texts.
abbrev pub both_texts : Text → Text → Text → Text
both_texts what fb_text adt_text =
    (bytes "ADT cannot " ++ (what ++ bytes " here and the fallback failed: "))
    ++ (fb_text ++ (bytes " (ADT: " ++ (adt_text ++ bytes ")")))

module _ (c : Classifier) {W : Type 0} where
  unfoldable pub with_fallback :
      {A : Type 0} → Text → Step W (Unit {0}) → Option (Step W (Unit {0})) → A → A → Step W A
  with_fallback what adt fb by_adt by_fb w =
      let (answer, w') = adt w in
      elim answer [
        | ok _ ↦ (ok by_adt, w')
        | err e ↦
            if is_kind (c.classify_error e) not_supported
            then (elim fb [
              | none ↦ (err e, w')
              | some f ↦
                  let (fb_answer, w'') = f w' in
                  (
                    elim fb_answer [
                      | ok _ ↦ ok by_fb
                      | err fb_err ↦
                          err (record fb_err { text = both_texts what fb_err.text e.text })
                    ],
                    w'',
                  )
            ])
            else (err e, w')
      ]

  unfoldable pub entries_of : Option (BlackMagicClient W) → Option (TransportEntryFallback W)
  entries_of none = none
  entries_of (some fb) = fb.entry_fallback

  unfoldable pub copies_of : Option (BlackMagicClient W) → Option (TransportCopiesFallback W)
  copies_of none = none
  copies_of (some fb) = fb.copies_fallback

  unfoldable pub through {ℓ} :
      {F : Type ℓ} → (F → Step W (Unit {0})) → Option F → Option (Step W (Unit {0}))
  through f none = none
  through f (some x) = some (f x)

  module _ (client : TransportClient W) (fallback : Option (BlackMagicClient W)) where
    open client use {
      add_to_transport, remove_from_transport, copy_transport_objects, add_package_to_transport,
    }

    unfoldable pub add_promise : Text → Text → Text → Text → Step W AddToTransportResult
    unfolding with_fallback entries_of copies_of through
    add_promise pgmid obj_type obj_name transport =
        let res : Bool → AddToTransportResult = λ via. record {
          pgmid = pgmid;
          object_type = obj_type;
          object_name = obj_name;
          transport = transport;
          added = true;
          via_fallback = via;
        } in
        with_fallback (bytes "record this entry")
          (add_to_transport pgmid obj_type obj_name transport)
          (through (λ fb. fb.add_to_transport_fallback pgmid obj_type obj_name transport)
            (entries_of fallback))
          (res false) (res true)

    add_entry_lem :
        (pgmid obj_type obj_name transport : Text) (w : W)
        → add_entry c client fallback pgmid obj_type obj_name transport w
          ≡ add_promise pgmid obj_type obj_name transport w
    unfolding add_promise add_entry entry_fallback_for fallback_answer both_failed wrap
    add_entry_lem pgmid obj_type obj_name transport w =
        elim (Result-cases (add_to_transport pgmid obj_type obj_name transport w).0) [
          | inl (_, a) ↦ ground (arith, a)
          | inr (e, a) ↦ elim (Option-cases fallback) [
            | inl q ↦ ground (arith, a, q)
            | inr (fb, q) ↦ ground (arith, a, q, Option-cases fb.entry_fallback)
          ]
        ]

    unfoldable pub remove_promise :
        Text → Text → Text → Text → Text → Text → Text → Step W RemoveFromTransportResult
    unfolding with_fallback entries_of copies_of through
    remove_promise task_nr parent_tr pgmid obj_type obj_name wb_type position =
        let res : Bool → RemoveFromTransportResult = λ via. record {
          task_number = task_nr;
          object_name = obj_name;
          removed = true;
          via_fallback = via;
        } in
        with_fallback (bytes "remove this entry")
          (remove_from_transport task_nr parent_tr pgmid obj_type obj_name wb_type position)
          (through
            (λ fb. fb.remove_from_transport_fallback task_nr parent_tr pgmid obj_type obj_name)
            (entries_of fallback))
          (res false) (res true)

    remove_entry_lem :
        (task_nr parent_tr pgmid obj_type obj_name wb_type position : Text) (w : W)
        → remove_entry c client fallback task_nr parent_tr pgmid obj_type obj_name wb_type position
            w
          ≡ remove_promise task_nr parent_tr pgmid obj_type obj_name wb_type position w
    unfolding remove_promise remove_entry entry_fallback_for fallback_answer both_failed wrap
    remove_entry_lem task_nr parent_tr pgmid obj_type obj_name wb_type position w =
        elim (Result-cases
          (remove_from_transport task_nr parent_tr pgmid obj_type obj_name wb_type position w).0) [
            | inl (_, a) ↦ ground (arith, a)
            | inr (e, a) ↦ elim (Option-cases fallback) [
              | inl q ↦ ground (arith, a, q)
              | inr (fb, q) ↦ ground (arith, a, q, Option-cases fb.entry_fallback)
            ]
          ]

    unfoldable pub copy_promise : Text → Text → Bool → Step W CopyTransportObjectsResult
    unfolding with_fallback entries_of copies_of through
    copy_promise source target flag =
        let res : Bool → CopyTransportObjectsResult = λ via. record {
          source_request = source;
          target_request = target;
          copied = true;
          via_fallback = via;
        } in
        with_fallback (bytes "copy the entries") (copy_transport_objects source target flag)
          (through (λ fb. fb.copy_transport_objects_fallback source target flag)
            (copies_of fallback))
          (res false) (res true)

    copy_objects_lem :
        (source target : Text) (flag : Bool) (w : W)
        → copy_objects c client fallback source target flag w ≡ copy_promise source target flag w
    unfolding copy_promise copy_objects copies_fallback_for fallback_answer both_failed wrap
    copy_objects_lem source target flag w =
        elim (Result-cases (copy_transport_objects source target flag w).0) [
          | inl (_, a) ↦ ground (arith, a)
          | inr (e, a) ↦ elim (Option-cases fallback) [
            | inl q ↦ ground (arith, a, q)
            | inr (fb, q) ↦ ground (arith, a, q, Option-cases fb.copies_fallback)
          ]
        ]

    unfoldable pub package_promise : Text → Text → Bool → Step W AddPackageToTransportResult
    unfolding with_fallback entries_of copies_of through
    package_promise source target flag =
        let res : Bool → AddPackageToTransportResult = λ via. record {
          package_name = source;
          target_request = target;
          include_subpackages = flag;
          added = true;
          via_fallback = via;
        } in
        with_fallback (bytes "add the package") (add_package_to_transport source target flag)
          (through (λ fb. fb.add_package_to_transport_fallback source target flag)
            (copies_of fallback))
          (res false) (res true)

    add_package_lem :
        (source target : Text) (flag : Bool) (w : W)
        → add_package c client fallback source target flag w ≡ package_promise source target flag w
    unfolding package_promise add_package copies_fallback_for fallback_answer both_failed wrap
    add_package_lem source target flag w =
        elim (Result-cases (add_package_to_transport source target flag w).0) [
          | inl (_, a) ↦ ground (arith, a)
          | inr (e, a) ↦ elim (Option-cases fallback) [
            | inl q ↦ ground (arith, a, q)
            | inr (fb, q) ↦ ground (arith, a, q, Option-cases fb.copies_fallback)
          ]
        ]

    -- `add_to_transport`, `remove_from_transport`, `copy_transport_objects` and
    -- `add_package_to_transport` ask ADT once. Only if ADT answers that it does not support the call
    -- and the fallback has the operation, they ask the fallback once, with the same arguments (of
    -- `remove_from_transport` those but the type and the position in the request); they then report its
    -- success as `via_fallback`, and its failure with a text that has its own text and ADT's. Every
    -- other answer of ADT is reported as it is.
    pub entry_tools_lem :
        (pgmid obj_type obj_name transport task_nr parent_tr wb_type position : Text)
        (source target : Text) (flag : Bool) (w : W)
        → (add_entry c client fallback pgmid obj_type obj_name transport w
            ≡ add_promise pgmid obj_type obj_name transport w)
          × (remove_entry c client fallback task_nr parent_tr pgmid obj_type obj_name wb_type
                position w
              ≡ remove_promise task_nr parent_tr pgmid obj_type obj_name wb_type position w)
          × (copy_objects c client fallback source target flag w
              ≡ copy_promise source target flag w)
          × (add_package c client fallback source target flag w
              ≡ package_promise source target flag w)
    entry_tools_lem pgmid obj_type obj_name transport task_nr parent_tr wb_type position source
          target flag w =
        (
          add_entry_lem pgmid obj_type obj_name transport w,
          remove_entry_lem task_nr parent_tr pgmid obj_type obj_name wb_type position w,
          copy_objects_lem source target flag w,
          add_package_lem source target flag w,
        )
