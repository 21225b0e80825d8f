-- ===== src/Tests/Service.antt =====
-- A session service over a native session that only counts the streams that it opens and closes.
use parqdb.Prelude.{ℕ, ◌+◌, true, false, [], ◌∷◌, All, some, none, ◌≡◌, refl, arith}
use parqdb.Python.Exceptions.{ok, err, raise, value_error}
use parqdb.Python.Value.{null}
use parqdb.Python.Action.{Action, lift}
use parqdb.Text.Chars.{format, contains}
use parqdb.Identifier.{index_namespace}
use parqdb.Server.Requests.{Request}
use parqdb.Server.Service.{App, vector}
use parqdb.Host.Native.{Native}
use parqdb.Host.Quoting.{opened-quote_identifier, quote_identifier, opened}
use parqdb.Runtime.{SessionService, explain}
use parqdb.Runtime.Plans.{Counts, explain-Change}
use parqdb.Runtime.References.{HasNoDot, identifier_reference-injective}
use parqdb.Runtime.Refusal
use parqdb.Runtime.Refusal.{Operation, run, run-closed, session_closed}
use parqdb.Runtime.Serving.{as_service, handlers, handlers-Refused, Refused}
use parqdb.Tests.Samples.{places, near}
use parqdb.Tests.Schemas.{name_arrow}

record Streams : Type 0 where
  opened : ℕ
  closed : ℕ

abbrev done : {A : Type 0} → A → Action Streams A
done a n = (ok a, n)

abbrev open_stream : Action Streams (Unit {0})
open_stream n = (ok tt, record n { opened = n.opened + 1 })

abbrev counting : Native name_arrow Streams (Unit {0}) (Unit {0})
counting = record {
  loads = λ _. raise value_error "not JSON";
  text_of = λ _. "";
  resolve_path = λ p. p;
  check_netloc = λ _. ok tt;
  register_parquet = λ _ _ _ _ _ _ _ _. done tt;
  list_table_definitions = done (("lake", "geo" ∷ [], "places 1") ∷ []);
  persistent_table_definition = λ _. done none;
  persistent_table_definition_by_identifier = λ _ _ _. done (some "{}");
  drop_table_definition_if_exists = λ _. done true;
  select_index_metadata = λ _ _ _ _. done "{}";
  plan_search = λ _. done tt;
  search_sql = λ _. done "SELECT 1";
  stream_sql = λ _. open_stream;
  stream_search = λ _. open_stream;
  stream_explain_search = λ _ _ _. open_stream;
  plan_batches = λ _. done [];
  aclose = λ _ n. (ok tt, record n { closed = n.closed + 1 });
  submit_create_index = λ _ _ _ _ _ _ _ _ _ _. done tt;
  submit_refresh_index = λ _ _ _ _ _ _ _ _. done tt;
  register_index = λ _ _ _ _. done tt;
  index_build_status = λ _ _ _. λ n. (raise value_error "no build", n);
  wait_for_index_build = λ _ _ _ _. done tt;
  list_source_indexes = λ _ _. done [];
  drop_source_index = λ _ _ _. done tt;
  frame = λ _. done tt;
  frame_schema = λ _. name_arrow.schema [];
  deregister_table = λ _. done tt;
  register_view = λ _ _. done tt;
  sql_collect = λ _. done [];
}

counting-Counts : Counts counting (λ n. n.opened) (λ n. n.closed)
counting-Counts = record {
  sql_opens = λ q n. refl;
  sql_closes = λ q n. refl;
  search_opens = λ a v w n. refl;
  search_closes = λ a v w n. refl;
  aclose_opens = λ s n. refl;
  aclose_closes = λ s n. refl;
  batches_opens = λ s n. omega arith;
  batches_closes = λ s n. refl;
  definition_opens = λ c ns t n. refl;
  definition_closes = λ c ns t n. refl;
  metadata_opens = λ d ns i c n. refl;
  metadata_closes = λ d ns i c n. refl;
}

abbrev closed_service : SessionService Streams
closed_service = record { closed = true; host = record { opened = 3; closed = 2 } }

abbrev open_service : SessionService Streams
open_service = record { closed = false; host = record { opened = 3; closed = 2 } }

run-closed_example :
    run counting (Refusal.drop_index places "by_vector") closed_service
    ≡ (err session_closed, closed_service)
run-closed_example = run-closed counting (Refusal.drop_index places "by_vector") closed_service refl

explain-Change_example :
    (explain counting (vector near) true false open_service).1.host.opened + 2
    ≡ 3 + (explain counting (vector near) true false open_service).1.host.closed
explain-Change_example =
    explain-Change counting (λ n. n.opened) (λ n. n.closed) counting-Counts (vector near) true false
      open_service

abbrev app : App name_arrow (SessionService Streams) (Unit {0}) (Unit {0})
app = record {
  loads = λ _. some null;
  service = as_service counting;
  encode = λ s. lift (ok s);
  authorize = λ path. ok path;
}

abbrev plain_request : Request
plain_request = record {
  route = record { table_id = "lake$geo$places 1"; delimiter = "$"; index_name = "by_vector" };
  limit = none;
  page_token = none;
  content_type = none;
  content_length = none;
  x_request_id = none;
  chunks = [];
  uuid = "0";
}

handlers-Refused_example :
    All (λ handler. Refused (handler plain_request closed_service) closed_service) (handlers app)
handlers-Refused_example = handlers-Refused counting app refl plain_request closed_service refl

opened-quote_identifier_example :
    opened (format (quote_identifier "a\"b" ∷ " WHERE x" ∷ [])) ≡ some ("a\"b", " WHERE x")
unfolding format
opened-quote_identifier_example = opened-quote_identifier "a\"b" " WHERE x" refl

places-HasNoDot : HasNoDot places
unfolding index_namespace contains
places-HasNoDot = (refl, (refl, (refl, tt)))

identifier_reference-injective_example : places ≡ places
identifier_reference-injective_example =
    identifier_reference-injective places places places-HasNoDot places-HasNoDot refl
