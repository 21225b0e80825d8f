-- ===== src/Tests/Blocking.antt =====
-- A blocking session whose close fails after one of its operations, and sessions that are opened.
use parqdb.Prelude.{ℕ, ◌+◌, Bool, true, false, [], ◌∷◌, some, none, ◌≡◌, ◌↔◌, refl}
use parqdb.Python.Exceptions.{Exception, ok, err, stream_execution_error}
use parqdb.Python.Action.{Action}
use parqdb.Facade.Blocking
use parqdb.Facade.Blocking.{
  Session, connect, run_sync, direct, stream, close, session_closed, new_bridge,
}
use parqdb.Facade.Blocking.Stopping
use parqdb.Facade.Blocking.Stopping.{Reach, close-run_sync}
use parqdb.Facade.Connect.{
  Arguments, Opening, http, in_process, connect_async, is_http_url, HasNoEmbedded,
  connect_async-http_iff,
}

abbrev failure : Exception
failure = record { kind = stream_execution_error; message = "lost" }

-- The state counts the operations.
abbrev count : Action ℕ (Unit {0})
count calls = (ok tt, calls + 1)

abbrev fail : Action ℕ (Unit {0})
fail calls = (err failure, calls + 1)

abbrev close_reader : ℕ → Action ℕ (Unit {0})
close_reader reader = count

abbrev opened : Session ℕ ℕ
opened = record { closed = false; readers = []; bridge = new_bridge; async = 1 }

-- A query is the number of its stream, and of its reader.
abbrev open_stream : ℕ → Action ℕ ℕ
open_stream query calls = (ok query, calls + 1)

abbrev is_arrow : ℕ → Bool
is_arrow stream = true

abbrev make_reader : ℕ → Action ℕ ℕ
make_reader stream calls = (ok stream, calls)

abbrev streaming : Session ℕ ℕ
streaming = record { closed = false; readers = 7 ∷ []; bridge = new_bridge; async = 2 }

abbrev used : Session ℕ ℕ
used = record { closed = false; readers = 7 ∷ []; bridge = new_bridge; async = 3 }

connected : connect count 0 ≡ (ok opened, new_bridge)
unfolding connect
connected = refl

using : Reach close_reader fail opened used
unfolding stream direct run_sync Blocking.bridge_run
using =
    Reach.next
      (Reach.next Reach.here
        (Stopping.Call.call_stream open_stream is_arrow make_reader make_reader 7 (ok 7) refl))
      (Stopping.Call.call_run count (ok tt) refl)

close-run_sync_example :
    (run_sync count (close close_reader fail used).1
      ≡ (err session_closed, (close close_reader fail used).1))
    × (stream open_stream is_arrow make_reader make_reader 7 (close close_reader fail used).1
        ≡ (err session_closed, (close close_reader fail used).1))
    × ((close close_reader fail used).1.bridge ≡ record { closed = true; stops = 1 })
close-run_sync_example =
    close-run_sync close_reader fail count 0 new_bridge count open_stream is_arrow make_reader
      make_reader 7 opened used connected using

closing_fails : (close close_reader fail used).0 ≡ err failure
unfolding close Blocking.bridge_run
closing_fails = refl

abbrev remote : Arguments ℕ ℕ ℕ
remote = record {
  root = some "HTTPS://example.com";
  warehouse = none;
  storage_options = none;
  config = none;
  runtime = none;
  headers = none;
  timeout = some 5;
}

connect_async-http_iff_example :
    (connect_async remote ≡ ok (http "HTTPS://example.com" none (some 5))) ↔ (
      (remote.root ≡ some "HTTPS://example.com")
      × (is_http_url "HTTPS://example.com" ≡ true)
      × HasNoEmbedded remote
      × (remote.headers ≡ none)
      × (remote.timeout ≡ some 5))
connect_async-http_iff_example = connect_async-http_iff remote "HTTPS://example.com" none (some 5)

remote_is_opened : connect_async remote ≡ ok (http "HTTPS://example.com" none (some 5))
unfolding connect_async is_http_url parqdb.Text.Chars.strip_prefix parqdb.Text.Url.lower
    parqdb.Text.Chars.to_char parqdb.Facade.Connect.reject_remote_embedded_options
remote_is_opened = refl
