-- ===== src/Objects.antt =====
-- tools/object.go: `create_object` with its fallback, `create_package` and `delete_object`.
pub mod Samples
use aibap_mcp.Base.{
  ◌≡◌, refl, inl, inr, ◌⊎◌, Bool, true, false, ◌&&◌, not, Option, none, some, List, [], ◌∷◌, ◌++◌,
  Text, bytes, contains, contains_text, to_upper, if◌then◌else◌, Result, ok, err, ◌>>=◌, is_ok,
  Result-cases, Bool-cases, Option-cases, arith,
}
use aibap_mcp.Errors.{Failure, new_error}
use aibap_mcp.Params.{Request, require_string}
use aibap_mcp.Transports.{Step, BlackMagicClient}

-- `ddicTypes`
unfoldable pub ddic_types : List Text
ddic_types = bytes "TABL" ∷ bytes "DTEL" ∷ bytes "DOMA" ∷ []

pub record ObjectCreateResult : Type 0 where
  pub name : Text
  pub created : Bool

pub record ObjectDeleteResult : Type 0 where
  pub uri : Text
  pub deleted : Bool

-- The parameters of `create_object`, in the order of adtler's `CreateObject`.
pub record NewObject : Type 0 where
  pub object_type : Text
  pub name : Text
  pub pkg : Text
  pub description : Text
  pub transport : Text

pub data CreateError : Type 0 where
  create_failed : Failure → CreateError
  not_available : Text → CreateError

unfoldable pub object_args : Request → Result Failure NewObject
object_args req = do
  object_type ← require_string req (bytes "object_type")
  name ← require_string req (bytes "name")
  pkg ← require_string req (bytes "package")
  description ← require_string req (bytes "description")
  ok (record {
    object_type = to_upper object_type;
    name = name;
    pkg = pkg;
    description = description;
    transport = req.get_string (bytes "transport") [];
  })

-- An error that the tool reads as: this system cannot create the type.
unfoldable pub lacks_ddic : NewObject → Failure → Bool
unfolding ddic_types
lacks_ddic o e = contains ddic_types o.object_type && contains_text (bytes "404") e.text

-- adtler's `CreateObject`, `CreatePackage` and `DeleteObject`.
pub record ObjectClient (W : Type 0) : Type 0 where
  pub create_object : NewObject → Step W (Unit {0})
  pub create_package : Text → Text → Text → Text → Text → Text → Step W (Unit {0})
  pub delete_object : Text → Text → Step W (Unit {0})

module _ {W : Type 0} (client : ObjectClient W) (fallback : Option (BlackMagicClient W)) where
  open client use {create_object, create_package, delete_object}

  abbrev done : NewObject → Result CreateError ObjectCreateResult
  done o = ok (record { name = o.name; created = true })

  unfoldable pub create_by_fallback : NewObject → W → Result CreateError ObjectCreateResult × W
  create_by_fallback o w = elim fallback [
    | none ↦ (err (not_available o.object_type), w)
    | some fb ↦
        let (answer, w') =
          fb.create_object_fallback o.object_type o.name o.pkg o.description o.transport w in
        (elim answer [ err e ↦ err (create_failed e) | ok _ ↦ done o ], w')
  ]

  unfoldable pub create_checked_object : NewObject → W → Result CreateError ObjectCreateResult × W
  unfolding create_by_fallback lacks_ddic
  create_checked_object o w =
      let (answer, w') = create_object o w in
      elim answer [
        | ok _ ↦ (done o, w')
        | err e ↦ if lacks_ddic o e then create_by_fallback o w' else (err (create_failed e), w')
      ]

  unfoldable pub create_object_tool : Request → W → Result CreateError ObjectCreateResult × W
  unfolding create_checked_object object_args
  create_object_tool req w = elim (object_args req) [
    | err e ↦ (err (create_failed e), w)
    | ok o ↦ create_checked_object o w
  ]

  unfoldable pub create_package_tool : Request → Step W ObjectCreateResult
  create_package_tool req w = elim (require_string req (bytes "name")) [
    | err e ↦ (err e, w)
    | ok name ↦ elim (require_string req (bytes "description")) [
      | err e ↦ (err e, w)
      | ok desc ↦ elim (require_string req (bytes "responsible")) [
        | err e ↦ (err e, w)
        | ok responsible ↦
            let (answer, w') =
              create_package name desc responsible (req.get_string (bytes "software_component") [])
                (req.get_string (bytes "transport_layer") [])
                (req.get_string (bytes "transport") []) w in
            elim answer [
              | err e ↦ (err e, w')
              | ok _ ↦ (ok (record { name = to_upper name; created = true }), w')
            ]
      ]
    ]
  ]

  unfoldable pub delete_object_tool : Request → Step W ObjectDeleteResult
  delete_object_tool req w =
      let uri = req.get_string (bytes "object_uri") [] in
      let (answer, w') = delete_object uri (req.get_string (bytes "transport") []) w in
      elim answer [ err e ↦ (err e, w') | ok _ ↦ (ok (record { uri = uri; deleted = true }), w') ]

  -- If `create_object` reports an object as created, it reports the name that was asked for, and ADT
  -- created that object; or ADT failed with a text that has "404" in it, the type is one of the
  -- dictionary, and the configured fallback created that object.
  pub create_object_reports :
      (o : NewObject) (w : W) (r : ObjectCreateResult)
      → (create_checked_object o w).0 ≡ ok r
      → (r.name ≡ o.name)
        × (((create_object o w).0 ≡ ok tt)
            ⊎ ((e : Failure) × ((create_object o w).0 ≡ err e)
                × (contains_text (bytes "404") e.text ≡ true)
                × (contains ddic_types o.object_type ≡ true)
                × ((fb : BlackMagicClient W) × (fallback ≡ some fb)
                    × ((fb.create_object_fallback o.object_type o.name o.pkg o.description
                          o.transport
                          (create_object o w).1).0
                        ≡ ok tt))))
  unfolding create_checked_object create_by_fallback lacks_ddic
  create_object_reports o w r h = elim (Result-cases (create_object o w).0) [
    | inl (_, a) ↦ (ground (arith, a, h), inl a)
    | inr (e, a) ↦ elim (Bool-cases (lacks_ddic o e)) [
      | inr b ↦ absurd (ground (arith, a, b, h))
      | inl b ↦ elim (Option-cases fallback) [
        | inl q ↦ absurd (ground (arith, a, b, q, h))
        | inr (fb, q) ↦
            let answer =
              fb.create_object_fallback o.object_type o.name o.pkg o.description o.transport
                (create_object o w).1 in
            elim (Result-cases answer.0) [
              | inl (u, d) ↦ (
                ground (arith, a, b, q, d, h),
                inr (e, a, ground (arith, b), ground (arith, b), (fb, q, d)),
              )
              | inr (_, d) ↦ absurd (ground (arith, a, b, q, d, h))
            ]
      ]
    ]
  ]
