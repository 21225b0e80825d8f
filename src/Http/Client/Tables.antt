-- ===== src/Http/Client/Tables.antt =====
-- The operations of HttpTransport that find tables: the pages of the list of tables, and references.
use parqdb.Prelude.{
  ℕ, zero, suc, String, Bool, not, List, [], ◌∷◌, ◌++◌, all, length, Option, some, none,
  if◌then◌else◌,
}
use parqdb.Python.Exceptions
use parqdb.Python.Exceptions.{
  Result, ok, err, raise, map_result, Exception, value_error, type_error, stream_execution_error,
}
use parqdb.Python.Value.{Value, Fields, null, str, arr, obj, items, of_entries, get}
use parqdb.Python.Action.{Action, lift, ◌>>=◌, ◌>>◌}
use parqdb.Text.Chars.{is_empty, format, member}
use parqdb.Text.Decimal.{of_nat}
use parqdb.Text.Split.{split, join}
use parqdb.Identifier.{TableIdentifier, table_identifier}
use parqdb.Models.Identifiers.{identifier_to_json, identifier_from_json}
use parqdb.Models.Registration.{Arrow, ColumnType, registration_to_json, schema_from_base64}
use parqdb.Http.Routes.{table_path, registration_path, identifier_reference}
use parqdb.Http.Client.{Transport, Message, Reply, ensure_open, request_json}

-- What a page tells the loop: the tables, and the next page's token or that there is none.
pub data Page : Type 0 where
  last : List TableIdentifier → Page
  more : List TableIdentifier → String → Page

unfoldable pub tables_of : Value → Result (List TableIdentifier)
tables_of (arr values) = map_result identifier_from_json (items values)
tables_of _ = raise stream_execution_error "ParqDB server returned invalid table metadata"

unfoldable pub token_of : List TableIdentifier → List String → Value → Result Page
token_of tables seen null = ok (last tables)
token_of tables seen (str token) =
    if is_empty token
    then raise stream_execution_error "ParqDB server returned an invalid page token"
    else if member token seen
    then raise stream_execution_error "ParqDB server repeated a table page token"
    else ok (more tables token)
token_of tables seen _ = raise stream_execution_error "ParqDB server returned an invalid page token"

-- One turn's body: the tables so far with those of the page.
unfoldable pub read_page : List TableIdentifier → List String → Fields → Result Page
unfolding tables_of token_of
read_page tables seen body =
    Exceptions.◌>>=◌ (tables_of (get body "tables"))
      (λ found. token_of (tables ++ found) seen (get body "next_page_token"))

abbrev pub page_params : Option String → List (String × String)
page_params none = ("limit", "1000") ∷ []
page_params (some token) = ("limit", "1000") ∷ ("page_token", token) ∷ []

module _ {S : Type 0} (send : Message → Action S Reply) (transport : Transport) where
  -- One turn of the loop.
  unfoldable pub one_page : List TableIdentifier → List String → Option String → Action S Page
  one_page tables seen token = do
    body ← request_json send transport "GET" "v1/table" (page_params token) none
    lift (read_page tables seen body)

  -- The loop of list_tables; `none` is that the fuel did not suffice.
  unfoldable pub list_from :
      ℕ
      → List TableIdentifier
      → List String
      → Option String
      → S
      → Option (Result (List TableIdentifier) × S)
  list_from zero tables seen token s = none
  list_from (suc fuel) tables seen token s =
      let turn = one_page tables seen token s in
      elim turn.0 [
        | err e ↦ some (err e, turn.1)
        | ok (last all_tables) ↦ some (ok all_tables, turn.1)
        | ok (more so_far next) ↦ list_from fuel so_far (next ∷ seen) (some next) turn.1
      ]

  unfoldable pub list_tables : ℕ → S → Option (Result (List TableIdentifier) × S)
  list_tables fuel s = elim (ensure_open transport) [
    | err e ↦ some (err e, s)
    | ok _ ↦ list_from fuel [] [] none s
  ]

-- The names under which an item of the list may be asked for.
abbrev pub reference_names : TableIdentifier → List String
reference_names t =
    t.name
    ∷ join "." (t.namespace ++ t.name ∷ [])
    ∷ join "." (t.catalog ∷ (t.namespace ++ t.name ∷ []))
    ∷ []

abbrev pub matching : String → List TableIdentifier → List TableIdentifier
matching identifier [] = []
matching identifier (t ∷ ts) =
    if member identifier (reference_names t)
    then t ∷ matching identifier ts
    else matching identifier ts

-- The candidate, if it is the only one.
unfoldable pub resolve_among : String → List TableIdentifier → Result TableIdentifier
resolve_among identifier tables = elim (matching identifier tables) [
  | t ∷ [] ↦ ok t
  | ts ↦ raise value_error (
      format (
        "table reference resolved to "
        ∷ of_nat (length ts)
        ∷ " registered tables: "
        ∷ identifier
        ∷ []))
]

-- qualified[1:-1] and qualified[-1], of the texts after the first.
abbrev pub unsnoc : String → List String → List String × String
unsnoc s [] = ([], s)
unsnoc s (t ∷ ts) = (s ∷ (unsnoc t ts).0, (unsnoc t ts).1)

-- The parts of a reference with at least three, none of them empty.
unfoldable pub qualified : List String → Option (String × List String × String)
qualified (catalog ∷ s ∷ t ∷ ts) =
    if all (λ part. not (is_empty part)) (catalog ∷ s ∷ t ∷ ts)
    then some (catalog, (unsnoc s (t ∷ ts)).0, (unsnoc s (t ∷ ts)).1)
    else none
qualified _ = none

-- A table by name, or by its identifier.
pub data Reference : Type 0 where
  name : String → Reference
  table : TableIdentifier → Reference

module _ {S : Type 0} (send : Message → Action S Reply) (transport : Transport) where
  abbrev after : {A B : Type 0} → Option (Result A × S) → (A → Action S B) → Option (Result B × S)
  after none f = none
  after (some (err e, s)) f = some (err e, s)
  after (some (ok a, s)) f = some (f a s)

  unfoldable pub resolve_identifier : ℕ → Reference → S → Option (Result TableIdentifier × S)
  resolve_identifier fuel (table t) s = some (ok t, s)
  resolve_identifier fuel (name identifier) s =
      let listed =
        after (list_tables send transport fuel s)
          (λ tables. lift (resolve_among identifier tables)) in
      if is_empty identifier
      then some (raise value_error "table identifier must not be empty", s)
      else elim (qualified (split "." identifier)) [
        | none ↦ listed
        | some (catalog, namespace, t) ↦ some (table_identifier catalog namespace t, s)
      ]

  deregister : TableIdentifier → Action S (Unit {0})
  deregister t = do
    path ← lift (table_path t "deregister")
    _ ←
        request_json send transport "POST" path.0 (("delimiter", path.1) ∷ [])
          (some (obj (of_entries (("identifier", identifier_to_json t) ∷ []))))
    lift (ok tt)

  unfoldable pub deregister_table : ℕ → Reference → S → Option (Result (Unit {0}) × S)
  unfolding deregister
  deregister_table fuel reference s = elim (ensure_open transport) [
    | err e ↦ some (err e, s)
    | ok _ ↦ after (resolve_identifier fuel reference s) deregister
  ]

  module _ (arrow : Arrow) where
    describe : TableIdentifier → Action S (TableIdentifier × arrow.Schema)
    describe t = do
      path ← lift (table_path t "describe")
      body ←
          request_json send transport "POST" path.0 (("delimiter", path.1) ∷ [])
            (some (obj (of_entries (("reference", str (identifier_reference t)) ∷ []))))
      found ← lift (identifier_from_json (get body "identifier"))
      schema ← lift (schema_from_base64 arrow (get body "schema"))
      lift (ok (found, schema))

    -- HttpTransport.table
    unfoldable pub find_table :
        ℕ → Reference → S → Option (Result (TableIdentifier × arrow.Schema) × S)
    unfolding describe
    find_table fuel reference s = elim (ensure_open transport) [
      | err e ↦ some (err e, s)
      | ok _ ↦ after (resolve_identifier fuel reference s) describe
    ]

    unfoldable pub register_parquet :
        String
        → String
        → Option (List (String × ColumnType arrow))
        → Bool
        → String
        → Bool
        → Option (arrow.Schema)
        → Value
        → Action S (Unit {0})
    register_parquet table_name path columns pruning extension skip schema sort_order = do
      lift (ensure_open transport)
      route ← lift (registration_path (str table_name))
      body ← lift (
          registration_to_json arrow table_name path columns pruning extension skip schema
            sort_order)
      _ ← request_json send transport "POST" route.0 (("delimiter", route.1) ∷ []) (some body)
      lift (ok tt)
