-- ===== src/Tests/Sessions.antt =====
-- A session with two streams, one of which cannot be closed in one of the inputs.
use parqdb.Prelude.{ℕ, ◌+◌, Bool, true, false, [], ◌∷◌, some, ◌≡◌, refl, if◌then◌else◌}
use parqdb.Python.Exceptions.{Exception, ok, err, stream_execution_error}
use parqdb.Server.Service.{sql}
use parqdb.Facade
use parqdb.Facade.{Transport, AsyncSession, ResultStream, new_session, stream, close, aclose_all}
use parqdb.Facade.Streams.{has, is_open}
use parqdb.Facade.Closing.{Counts}
use parqdb.Facade.Reached
use parqdb.Facade.Reached.{Reach, Reach-has_iff, close-eq_ok, close-eq_err}

record Net : Type 0 where
  closings : ℕ
  broken : Bool

abbrev failure : Exception
failure = record { kind = stream_execution_error; message = "lost" }

abbrev net : Transport Net (Unit {0}) (Unit {0}) ℕ
net = record {
  stream = λ q w. (ok tt, w);
  schema = λ h w. (ok tt, w);
  anext = λ h w. (ok (some 1), w);
  aclose = λ h w. (if w.broken then err failure else ok tt, w);
  close = λ w. (ok tt, record w { closings = w.closings + 1 });
}

net-Counts : Counts net (λ w. w.closings)
net-Counts = record {
  close_counts = λ w. refl;
  stream_keeps = λ q w. refl;
  schema_keeps = λ h w. refl;
  anext_keeps = λ h w. refl;
  aclose_keeps = λ h w. refl;
}

abbrev sound : Net
sound = record { closings = 0; broken = false }

abbrev with_stream : Net → AsyncSession Net (Unit {0})
with_stream w = (stream net (sql "SELECT 1") (new_session w)).1

streaming : (w : Net) → Reach net (new_session w) (with_stream w)
streaming w = Reach.next Reach.here (Reached.Call.call_stream (sql "SELECT 1") _ refl)

Reach-has_iff_example : has 0 (with_stream sound).streams ≡ is_open ((with_stream sound).objects 0)
Reach-has_iff_example = Reach-has_iff net sound (with_stream sound) 0 (streaming sound)

one_open : (with_stream sound).closed ≡ false
unfolding stream new_session
one_open = refl

closed_well : close net (with_stream sound) ≡ (ok tt, (close net (with_stream sound)).1)
unfolding close stream new_session aclose_all Facade.aclose
closed_well = refl

close-eq_ok_example :
    (is_open ((close net (with_stream sound)).1.objects 0) ≡ false)
    × (has 0 (close net (with_stream sound)).1.streams ≡ false)
    × ((close net (with_stream sound)).1.transport.closings
        ≡ (with_stream sound).transport.closings + 1)
close-eq_ok_example =
    close-eq_ok net (λ w. w.closings) net-Counts sound (with_stream sound)
      (close net (with_stream sound)).1 0 (streaming sound) one_open closed_well

abbrev broken_session : AsyncSession Net (Unit {0})
broken_session = record {
  closed = false;
  streams = 0 ∷ [];
  objects = λ _. some (record { handle = tt; closed = false; registered = true });
  fresh = 1;
  transport = record { closings = 0; broken = true };
}

stream_fails : (aclose_all net (0 ∷ []) (record broken_session { closed = true })).0 ≡ err failure
unfolding aclose_all Facade.aclose
stream_fails = refl

close-eq_err_example :
    (t : AsyncSession Net (Unit {0})) × (close net broken_session ≡ (err failure, t))
    × (t.transport.closings ≡ 0)
    × (close net t ≡ (ok tt, t))
close-eq_err_example =
    close-eq_err net (λ w. w.closings) net-Counts broken_session failure refl stream_fails
