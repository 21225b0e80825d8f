-- ===== src/Tests/Requests.antt =====
-- The requests at concrete inputs.
use parqdb.Prelude.{
  ◌*◌, ◌≤◌, String, List, [], ◌∷◌, length, map, Option, some, none, ◌≡◌, ◌↔◌, ◌⊎◌, refl, true,
  false, arith, IfSome,
}
use parqdb.Python.Exceptions.{ok, raise, value_error}
use parqdb.Python.Value.{Value, null, str, obj, of_entries}
use parqdb.Python.Action.{Action, lift}
use parqdb.Text.Utf8.{encode_char}
use parqdb.Text.Chars.{to_char, contains, format}
use parqdb.Text.Split.{split, join}
use parqdb.Text.Quote.{quote, unquote}
use parqdb.Identifier.{TableIdentifier}
use parqdb.Config.{Ivf, WriteOptions}
use parqdb.Config.Laws.{IsIvf, IsWriteOptions}
use parqdb.Models.Identifiers.{identifier_to_json}
use parqdb.Models.Paths.{
  identifier_delimiter, path_segments, encode_identifier_path, decode_identifier_path,
}
use parqdb.Models.Paths.RoundTrip.{decode-encode_identifier_path}
use parqdb.Models.Registration.{registration_to_json, registration_from_json, of_orders}
use parqdb.Models.Registration.RoundTrip.{registration_from_json-to_json, resolve}
use parqdb.Models.Checks.{string, portable_sort_order}
use parqdb.Http.Routes.{table_path, choose_delimiter, choose_delimiter_for_segments}
use parqdb.Http.Routes.Delimiters.{table_path_decodes}
use parqdb.Http.Client.{Transport, Message, Reply}
use parqdb.Http.Client.Tables.{list_tables}
use parqdb.Server.Routes.{validate_route_identifier}
use parqdb.Server.Routes.Matching.{route_accepted_iff}
use parqdb.Server.Requests.{Request, collect, json_body, check_length, as_object, media_type}
use parqdb.Server.Requests.Limits.{payload_of, collect_iff, json_body-eq_ok}
use parqdb.Server.Service.{App}
use parqdb.Server.Tables.{list_tables_operation, handled}
use parqdb.Server.Tables.Tokens.{page_request}
use parqdb.Server.Tables.Paging.{reply_to, page_message, list_tables-collects}
use parqdb.Server.Indexes.{drop, refresh}
use parqdb.Server.Indexes.Scoping.{IsRouted, Refused, drop_scoped, refresh_scoped}
use parqdb.Tests.Samples.{places, places-IsValid}
use parqdb.Tests.Schemas.{name_arrow, print}

encoded_places : encode_identifier_path places "$" ≡ ok ("geo$places%201", "$")
unfolding encode_identifier_path contains quote join identifier_delimiter encode_char to_char
encoded_places = refl

decode-encode_identifier_path_example :
    decode_identifier_path "geo$places%201" "$" ≡ ok (path_segments places)
decode-encode_identifier_path_example =
    decode-encode_identifier_path places "$" "geo$places%201" "$" places-IsValid refl encoded_places

places_path : table_path places "describe" ≡ ok ("v1/table/geo$places%201/describe", "$")
unfolding table_path choose_delimiter choose_delimiter_for_segments contains format
places_path = rw encoded_places refl

table_path_decodes_example :
    (middle : String) × ("v1/table/geo$places%201/describe"
      ≡ format ("v1/table/" ∷ middle ∷ "/" ∷ "describe" ∷ []))
    × (decode_identifier_path middle "$" ≡ ok (path_segments places))
table_path_decodes_example =
    table_path_decodes places "describe" "v1/table/geo$places%201/describe" "$" places-IsValid
      places_path

route_accepted_iff_example :
    (middle : String) × ("v1/table/geo$places%201/describe"
      ≡ format ("v1/table/" ∷ middle ∷ "/" ∷ "describe" ∷ []))
    × ((validate_route_identifier
            (record { table_id = unquote middle; delimiter = "$"; index_name = "" })
            places
          ≡ ok tt)
        ↔ (map unquote (path_segments places) ≡ path_segments places))
route_accepted_iff_example =
    route_accepted_iff unquote (λ s. refl) places "describe" "v1/table/geo$places%201/describe" "$"
      "" places-IsValid places_path

abbrev registration_body : Value
registration_body = obj (
    of_entries (
      ("name", str "places")
      ∷ ("source", str "/data/places.parquet")
      ∷ ("partition_schema", null)
      ∷ ("parquet_pruning", Value.bool true)
      ∷ ("file_extension", str ".parquet")
      ∷ ("skip_metadata", Value.bool false)
      ∷ ("schema", str (print ("id" ∷ [])))
      ∷ ("file_sort_order", of_orders name_arrow (("id" ∷ []) ∷ []))
      ∷ []))

registration_sent :
    registration_to_json name_arrow "places" "/data/places.parquet" none true ".parquet" false
      (some ("id" ∷ []))
      (of_orders name_arrow (("id" ∷ []) ∷ []))
    ≡ ok registration_body
unfolding registration_to_json portable_sort_order string
registration_sent = refl

registration_from_json-to_json_example :
    (ds : Option (List (String × Unit {0}))) × (orders : List (List String)) × (resolve name_arrow
        none
      ≡ ok ds)
    × (portable_sort_order (of_orders name_arrow (("id" ∷ []) ∷ [])) ≡ ok orders)
    × (registration_from_json name_arrow registration_body
        ≡ ok (record {
          name = "places";
          source = "/data/places.parquet";
          table_partition_cols = ds;
          parquet_pruning = true;
          file_extension = ".parquet";
          skip_metadata = false;
          schema = some ("id" ∷ []);
          file_sort_order = orders;
        }))
registration_from_json-to_json_example =
    registration_from_json-to_json name_arrow "places" "/data/places.parquet" ".parquet" none true
      false (some ("id" ∷ [])) (of_orders name_arrow (("id" ∷ []) ∷ [])) registration_body
      registration_sent

-- A service that keeps the names of the indexes it dropped or refreshed.
abbrev Log : Type 0
Log = List String

abbrev logged : String → Action Log (Unit {0})
logged name log = (ok tt, name ∷ log)

abbrev refuse : {A : Type 0} → Action Log A
refuse log = (raise value_error "refused", log)

abbrev small_app : App name_arrow Log (Unit {0}) (Unit {0})
small_app = record {
  loads = λ bytes.
      some (obj (of_entries (("source", identifier_to_json places) ∷ ("index", str "near") ∷ [])));
  service = record {
    register_parquet = λ r. refuse;
    list_tables = lift (ok (places ∷ []));
    table = λ name. refuse;
    deregister_table = λ t. refuse;
    create_index = λ t index column key config options. refuse;
    register_index = λ t index location. refuse;
    refresh_index = λ t index config options. logged index;
    index_status = λ t index. refuse;
    list_indexes = λ t. refuse;
    drop_index = λ t index. logged index;
    stream = λ q. refuse;
    explain = λ q verbose analyze. refuse;
    to_sql = λ q. refuse;
  };
  encode = λ batches. lift (ok tt);
  authorize = λ source. ok source;
}

abbrev index_request : Request
index_request = record {
  route = record { table_id = "geo$places 1"; delimiter = "$"; index_name = "near" };
  limit = none;
  page_token = none;
  content_type = some "application/json";
  content_length = none;
  x_request_id = some "r1";
  chunks = (123 ∷ []) ∷ (125 ∷ []) ∷ [];
  uuid = "0123";
}

drop_scoped_example :
    Refused (drop small_app index_request []) []
    ⊎ ((t : TableIdentifier) × (index : String) × IsRouted index_request.route t
        × (unquote "near" ≡ index)
        × ((drop small_app index_request []).1 ≡ index ∷ []))
drop_scoped_example = drop_scoped small_app index_request []

refresh_scoped_example :
    Refused (refresh small_app index_request []) []
    ⊎ ((t : TableIdentifier) × (index : String) × (config : Option Ivf) × (options : Option
          WriteOptions)
        × IsRouted index_request.route t
        × (unquote "near" ≡ index)
        × IfSome IsIvf config
        × IfSome IsWriteOptions options
        × ((refresh small_app index_request []).1 ≡ index ∷ []))
refresh_scoped_example = refresh_scoped small_app index_request []

collect_iff_example : (collect [] ((123 ∷ []) ∷ (125 ∷ []) ∷ []) ≡ ok (123 ∷ 125 ∷ [])) ↔ (
    (123 ∷ 125 ∷ [] ≡ payload_of ((123 ∷ []) ∷ (125 ∷ []) ∷ []))
    × (length (payload_of ((123 ∷ []) ∷ (125 ∷ []) ∷ [])) ≤ 1024 * 1024))
collect_iff_example = collect_iff ((123 ∷ []) ∷ (125 ∷ []) ∷ []) (123 ∷ 125 ∷ [])

body_read :
    json_body small_app.loads index_request
    ≡ ok (of_entries (("source", identifier_to_json places) ∷ ("index", str "near") ∷ []))
unfolding json_body split check_length collect as_object
body_read = refl

json_body-eq_ok_example :
    (media_type (some "application/json") ≡ "application/json")
    × (length (payload_of index_request.chunks) ≤ 1024 * 1024)
    × (small_app.loads (payload_of index_request.chunks)
        ≡ some
            (obj (of_entries (("source", identifier_to_json places) ∷ ("index", str "near") ∷ []))))
json_body-eq_ok_example = json_body-eq_ok small_app.loads index_request _ body_read

abbrev open_transport : Transport
open_transport = record { closed = false; owns_client = false }

abbrev token_of_params : List (String × String) → Option String
token_of_params (limit ∷ token ∷ []) = some token.1
token_of_params _ = none

-- The network between the client and this server, whose replies have any size that fits.
abbrev network : Message → Action Log Reply
network message log =
    let r = page_request index_request (token_of_params message.params) in
    reply_to (λ body. 0) (handled r (list_tables_operation small_app r) log)

network-serves :
    (token : Option String) (log : Log)
    → network (page_message token) log
      ≡ reply_to
          (λ body. 0)
          (handled
            (page_request index_request token)
            (list_tables_operation small_app (page_request index_request token))
            log)
network-serves none log = refl
network-serves (some token) log = refl

list_tables-collects_example : list_tables network open_transport 1 [] ≡ some (ok (places ∷ []), [])
list_tables-collects_example =
    list_tables-collects small_app index_request (places ∷ []) (λ body. 0) network open_transport
      (λ s. refl) network-serves (λ o. omega arith) refl (places-IsValid, tt) 1 [] (omega arith)
      (omega arith)
