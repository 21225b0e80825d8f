-- ===== src/Server/Tables.antt =====
-- The handlers of server/app.py for tables.
pub mod Tokens
pub mod Paging
use parqdb.Prelude.{
  ℕ, ◌+◌, leb, ◌&&◌, String, Bool, true, List, [], ◌∷◌, map, length, take, drop, Option, some, none,
  ltb, if◌then◌else◌,
}
use parqdb.Python.Int.{ℤ, pos, negsuc, is_positive, is_non_negative, at_most}
use parqdb.Python.Exceptions.{Result, ok, err, raise, value_error}
use parqdb.Python.Value.{
  Value, Fields, null, bool, str, arr, obj, of_items, of_entries, of_option, get,
}
use parqdb.Text.Chars.{format}
use parqdb.Text.Decimal.{of_nat, to_int}
use parqdb.Identifier.{TableIdentifier}
use parqdb.Models.Identifiers.{identifier_to_json}
use parqdb.Models.Registration.{Arrow, Registration, registration_from_json}
use parqdb.Server.Routes.{
  validate_route_identifier, validate_registration_route, required_string, scoped_identifier,
}
use parqdb.Python.Action.{Action, lift, ◌>>=◌, ◌>>◌}
use parqdb.Server.Requests.{
  Request, Response, json_response, request_id, json_body, only_fields, handle,
}
use parqdb.Server.Service.{Service, App}

-- MAX_LIST_TABLES_PAGE_SIZE
abbrev pub max_page_size : ℕ
max_page_size = 1000

integers : Option ℤ → Option ℤ → Result (ℤ × ℤ)
integers (some l) (some o) = ok (l, o)
integers _ _ = raise value_error "limit and page_token must be integers"

checked : ℤ × ℤ → Result (ℕ × ℕ)
checked (negsuc l, o) = raise value_error "limit must be between 1 and 1000"
checked (pos l, o) =
    if ltb 0 l && leb l max_page_size
    then elim o [
      | pos n ↦ ok (l, n)
      | negsuc n ↦ raise value_error "page_token must not be negative"
    ]
    else raise value_error "limit must be between 1 and 1000"

abbrev default : Option String → String → String
default none s = s
default (some t) s = t

-- The limit and the offset of a page.
unfoldable pub page_of : Request → Result (ℕ × ℕ)
unfolding integers checked
page_of r = elim (integers (to_int (default r.limit "100")) (to_int (default r.page_token "0"))) [
  | ok n ↦ checked n
  | err e ↦ err e
]

-- The body for the tables from `offset` on, at most `limit` of them.
unfoldable pub tables_page : List TableIdentifier → ℕ → ℕ → Value
tables_page tables limit offset =
    let page = take limit (drop offset tables) in
    let next_offset = offset + length page in
    obj (
      of_entries (
        ("tables", arr (of_items (map identifier_to_json page)))
        ∷ (
          "next_page_token",
          if ltb next_offset (length tables) then str (of_nat next_offset) else null,
        )
        ∷ []))

abbrev pub respond : {Stream : Type 0} → Request → ℕ → List (String × Value) → Response Stream
respond r status fields = json_response status (obj (of_entries fields)) (request_id r)

-- A handler: its operation with what `_handle` does about exceptions.
abbrev pub handled :
    {S Stream : Type 0} → Request → Action S (Response Stream) → S → Response Stream × S
handled r operation s = (handle r (operation s).0, (operation s).1)

module _ {arrow : Arrow} {S Batches Stream : Type 0} (app : App arrow S Batches Stream) where
  open app use {service}
  open service use {list_tables, register_parquet, table, deregister_table}

  unfoldable pub list_tables_operation : Request → Action S (Response Stream)
  list_tables_operation r = do
    page ← lift (page_of r)
    tables ← list_tables
    lift (ok (json_response 200 (tables_page tables page.0 page.1) (request_id r)))

  -- table_descriptor_to_json
  abbrev pub descriptor_to_json : TableIdentifier × arrow.Schema → List (String × Value)
  descriptor_to_json (t, schema) =
      ("identifier", identifier_to_json t) ∷ ("schema", str (arrow.serialize schema)) ∷ []

  unfoldable pub register_table : Request → Action S (Response Stream)
  register_table r = do
    body ← lift (json_body app.loads r)
    values ← lift (registration_from_json arrow (obj body))
    lift (validate_registration_route r.route values.name)
    path ← lift (app.authorize values.source)
    register_parquet (record {
      name = values.name;
      source = path;
      table_partition_cols = values.table_partition_cols;
      parquet_pruning = values.parquet_pruning;
      file_extension = values.file_extension;
      skip_metadata = values.skip_metadata;
      schema = values.schema;
      file_sort_order = values.file_sort_order;
    })
    descriptor ← table values.name
    lift (ok (respond r 200 (descriptor_to_json descriptor)))

  unfoldable pub describe_table : Request → Action S (Response Stream)
  describe_table r = do
    body ← lift (json_body app.loads r)
    reference ← lift (required_string (get body "reference") "reference")
    descriptor ← table reference
    lift (validate_route_identifier r.route descriptor.0)
    lift (ok (respond r 200 (descriptor_to_json descriptor)))

  unfoldable pub deregister : Request → Action S (Response Stream)
  deregister r = do
    body ← lift (json_body app.loads r)
    lift (only_fields body ("identifier" ∷ []))
    t ← lift (scoped_identifier r.route body "identifier")
    deregister_table t
    lift (ok (respond r 200 (("deregistered", bool true) ∷ [])))
