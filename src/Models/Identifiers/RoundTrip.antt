-- ===== src/Models/Identifiers/RoundTrip.antt =====
-- A table identifier read back from its JSON form, and what an accepted one satisfies.
use parqdb.Prelude.{String, false, List, [], ◌∷◌, map, ◌≡◌, refl, arith, All, any}
use parqdb.Python.Exceptions.{ok, >>=-eq-ok}
use parqdb.Python.Value.{Value, items-of_items, str, get}
use parqdb.Text.Chars.{is_empty}
use parqdb.Identifier.{TableIdentifier, table_identifier, IsValid}
use parqdb.Models.Checks.{object, reject_unknown, string}
use parqdb.Models.Checks.Laws.{NonEmpty, any-is_empty, string-str, strings-map}
use parqdb.Models.Identifiers.{identifier_to_json, identifier_from_json, namespace_segments}

table_identifier_of_IsValid :
    (t : TableIdentifier) → IsValid t → table_identifier t.catalog t.namespace t.name ≡ ok t
unfolding table_identifier
table_identifier_of_IsValid t v = rw (v.catalog, v.name, any-is_empty t.namespace v.namespace) refl

-- A valid table identifier is read back from its JSON form unchanged.
pub identifier_from_json-to_json :
    (t : TableIdentifier) → IsValid t → identifier_from_json (identifier_to_json t) ≡ ok t
unfolding identifier_to_json identifier_from_json object reject_unknown
identifier_from_json-to_json t v =
    rw
      (
        string-str t.catalog "catalog" v.catalog,
        string-str t.name "name" v.name,
        items-of_items (map str t.namespace),
        strings-map t.namespace "namespace segment" v.namespace,
      )
      (table_identifier_of_IsValid t v)

All_of_any : (ss : List String) → any is_empty ss ≡ false → All NonEmpty ss
All_of_any [] h = tt
All_of_any (s ∷ ss) h = (ground arith, All_of_any ss (ground arith))

table_identifier-IsValid :
    (c : String) (ns : List String) (n : String) (t : TableIdentifier)
    → table_identifier c ns n ≡ ok t
    → IsValid t
unfolding table_identifier
table_identifier-IsValid c ns n t h =
    let parts : (any is_empty ns ≡ false) × (t.namespace ≡ ns) = ground arith in
    record {
      catalog = ground arith;
      namespace = rw parts.1 (All_of_any ns parts.0);
      name = ground arith;
    }

-- Every table identifier that is read from a JSON value is valid: its catalog, its name and the
-- segments of its namespace are non-empty.
pub identifier_from_json-IsValid :
    (v : Value) (t : TableIdentifier) → identifier_from_json v ≡ ok t → IsValid t
unfolding identifier_from_json
identifier_from_json-IsValid v t h =
    let (body, _, h₁) = >>=-eq-ok (object v "table identifier") _ h in
    let (_, _, h₂) = >>=-eq-ok (reject_unknown body _ _) _ h₁ in
    let (c, _, h₃) = >>=-eq-ok (string (get body "catalog") "catalog") _ h₂ in
    let (n, _, h₄) = >>=-eq-ok (string (get body "name") "name") _ h₃ in
    let (ns, _, h₅) = >>=-eq-ok (namespace_segments (get body "namespace")) _ h₄ in
    table_identifier-IsValid c ns n t h₅
