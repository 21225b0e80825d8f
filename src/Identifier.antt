-- ===== src/Identifier.antt =====
-- identifier.py: the identity of a table.
use parqdb.Prelude.{String, ◌||◌, List, [], ◌∷◌, ◌++◌, ◌≡◌, false, any, All, if◌then◌else◌}
use parqdb.Python.Exceptions.{Result, ok, raise, value_error}
use parqdb.Text.Chars.{is_empty}

pub record TableIdentifier : Type 0 where
  pub catalog : String
  pub namespace : List String
  pub name : String

-- TableIdentifier(catalog, namespace, name) with its `__post_init__`; the types of the arguments are
-- those of the record.
unfoldable pub table_identifier : String → List String → String → Result TableIdentifier
table_identifier catalog namespace name =
    if is_empty catalog || is_empty name
    then raise value_error "catalog and table name must be non-empty strings"
    else if any is_empty namespace
    then raise value_error "namespace must contain non-empty string segments"
    else ok (record { catalog = catalog; namespace = namespace; name = name })

unfoldable pub index_namespace : TableIdentifier → List String
index_namespace t = t.catalog ∷ (t.namespace ++ t.name ∷ [])

-- What `__post_init__` establishes.
pub record IsValid (t : TableIdentifier) : Type 0 where
  pub catalog : is_empty t.catalog ≡ false
  pub namespace : All (λ s. is_empty s ≡ false) t.namespace
  pub name : is_empty t.name ≡ false
