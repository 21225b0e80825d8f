-- ===== src/Server/Indexes.antt =====
-- The handlers of server/app.py for indexes.
pub mod Scoping
use parqdb.Prelude.{String, true, false, List, [], ◌∷◌, map, Option, some, none}
use parqdb.Python.Exceptions
use parqdb.Python.Exceptions.{Result, ok}
use parqdb.Python.Value.{Value, null, bool, arr, of_items, get}
use parqdb.Config.{Ivf}
use parqdb.Models.Registration.{Arrow}
use parqdb.Models.Indexes.{ivf_from_json, writer_options_from_json}
use parqdb.Models.Statuses.{index_status_to_json, index_info_to_json}
use parqdb.Server.Routes.{required_string, scoped_identifier, scoped_index}
use parqdb.Python.Action.{Action, lift, ◌>>=◌, ◌>>◌}
use parqdb.Server.Requests.{
  Request, Response, json_response, request_id, json_body, only_fields, string_array,
}
use parqdb.Server.Service.{App}
use parqdb.Server.Tables.{respond}

-- `None if value is None else ivf_from_json(value)`
abbrev pub optional_ivf : Value → Result (Option Ivf)
optional_ivf null = ok none
optional_ivf value = Exceptions.◌>>=◌ (ivf_from_json value) (λ c. ok (some c))

module _ {arrow : Arrow} {S Batches Stream : Type 0} (app : App arrow S Batches Stream) where
  open app.service use {
    create_index, list_indexes, register_index, index_status, refresh_index, drop_index,
  }

  unfoldable pub create : Request → Action S (Response Stream)
  create r = do
    body ← lift (json_body app.loads r)
    lift (
        only_fields body ("source" ∷ "index" ∷ "column" ∷ "key" ∷ "config" ∷ "writer_options" ∷ []))
    t ← lift (scoped_identifier r.route body "source")
    index ← lift (required_string (get body "index") "index")
    key ← lift (string_array (get body "key") "key" false)
    column ← lift (required_string (get body "column") "column")
    config ← lift (ivf_from_json (get body "config"))
    options ← lift (writer_options_from_json (get body "writer_options"))
    create_index t index column key config options
    lift (ok (respond r 202 (("accepted", bool true) ∷ [])))

  unfoldable pub list_of_table : Request → Action S (Response Stream)
  list_of_table r = do
    body ← lift (json_body app.loads r)
    lift (only_fields body ("source" ∷ []))
    t ← lift (scoped_identifier r.route body "source")
    indexes ← list_indexes t
    lift (ok (respond r 200 (("indexes", arr (of_items (map index_info_to_json indexes))) ∷ [])))

  unfoldable pub register : Request → Action S (Response Stream)
  register r = do
    body ← lift (json_body app.loads r)
    lift (only_fields body ("source" ∷ "index" ∷ "manifest_location" ∷ []))
    t ← lift (scoped_identifier r.route body "source")
    index ← lift (scoped_index r.route body)
    location ← lift (required_string (get body "manifest_location") "manifest_location")
    register_index t index location
    lift (ok (respond r 200 (("registered", bool true) ∷ [])))

  unfoldable pub status : Request → Action S (Response Stream)
  status r = do
    body ← lift (json_body app.loads r)
    lift (only_fields body ("source" ∷ "index" ∷ []))
    t ← lift (scoped_identifier r.route body "source")
    index ← lift (scoped_index r.route body)
    found ← index_status t index
    lift (ok (json_response 200 (index_status_to_json found) (request_id r)))

  unfoldable pub refresh : Request → Action S (Response Stream)
  refresh r = do
    body ← lift (json_body app.loads r)
    lift (only_fields body ("source" ∷ "index" ∷ "config" ∷ "writer_options" ∷ []))
    t ← lift (scoped_identifier r.route body "source")
    index ← lift (scoped_index r.route body)
    config ← lift (optional_ivf (get body "config"))
    options ← lift (writer_options_from_json (get body "writer_options"))
    refresh_index t index config options
    lift (ok (respond r 202 (("accepted", bool true) ∷ [])))

  unfoldable pub drop : Request → Action S (Response Stream)
  drop r = do
    body ← lift (json_body app.loads r)
    lift (only_fields body ("source" ∷ "index" ∷ []))
    t ← lift (scoped_identifier r.route body "source")
    index ← lift (scoped_index r.route body)
    drop_index t index
    lift (ok (respond r 200 (("dropped", bool true) ∷ [])))
