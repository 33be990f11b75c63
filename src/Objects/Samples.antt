-- ===== src/Objects/Samples.antt =====
-- Creating a table on a system without the endpoint, through the fallback.
use aibap_mcp.Base.{
  starts_with, text_eq, ◌≡◌, refl, ◌⊎◌, true, some, [], contains, contains_text, bytes, ok, err,
}
use aibap_mcp.Errors.{Failure, new_error}
use aibap_mcp.Transports.{BlackMagicClient}
use aibap_mcp.Transports.Samples.{Log, gui, does}
use aibap_mcp.Objects.{
  create_checked_object, NewObject, ObjectClient, ddic_types, create_object_reports,
}

abbrev ecc : ObjectClient Log
ecc = record {
  create_object = λ o w. (err (new_error (bytes "SAP ADT error 404: not found")), w);
  create_package = λ name desc responsible component layer transport. does (bytes "package");
  delete_object = λ uri transport. does (bytes "delete");
}

abbrev table : NewObject
table = record {
  object_type = bytes "TABL";
  name = bytes "ZT";
  pkg = bytes "$TMP";
  description = bytes "Test";
  transport = [];
}

create_object_reports_example :
    (table.name ≡ bytes "ZT")
    × (((ecc.create_object table []).0 ≡ ok tt)
        ⊎ ((e : Failure) × ((ecc.create_object table []).0 ≡ err e)
            × (contains_text (bytes "404") e.text ≡ true)
            × (contains ddic_types table.object_type ≡ true)
            × ((fb : BlackMagicClient Log) × (some gui ≡ some fb)
                × ((fb.create_object_fallback table.object_type table.name table.pkg
                      table.description table.transport []).0
                    ≡ ok tt))))
unfolding create_checked_object contains text_eq contains_text new_error starts_with
create_object_reports_example =
    create_object_reports ecc (some gui) table [] (record { name = bytes "ZT"; created = true })
      refl
