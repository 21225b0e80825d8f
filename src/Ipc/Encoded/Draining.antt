-- ===== src/Ipc/Encoded/Draining.antt =====
-- An encoding stream that is read to its end, against the encoding of all batches one by one.
use parqdb.Prelude.{
  ℕ, zero, suc, ◌+◌, ◌≤◌, Bool, true, false, List, [], ◌∷◌, ◌++◌, Option, some, none, ◌≡◌, refl,
  arith, length, length-append, sym, ap, ◌∙◌,
}
use parqdb.Python.Exceptions.{Result, ok, err}
use parqdb.Python.Action.{>>=-eq_ok}
use parqdb.Ipc.{BatchStream, Encoder, Progress}
use parqdb.Ipc.Encoded.{EncodedIpcStream, aclose, anext, wait_pending, turn, encode_ipc_stream}

-- `async for` over the stream, on fuel: the chunks in order, or what it raised.
abbrev Drained : Type 0 → Type 0
Drained S = Option (Result (List (List ℕ)) × S)

with_chunk : {S : Type 0} → List ℕ → Drained S → Drained S
with_chunk chunk none = none
with_chunk chunk (some (ok rest, s)) = some (ok (chunk ∷ rest), s)
with_chunk chunk (some (err e, s)) = some (err e, s)

collected : {S : Type 0} → (S → Drained S) → Progress S (List ℕ) → Drained S
unfolding with_chunk
collected loop none = none
collected loop (some (ok (some chunk), s)) = with_chunk chunk (loop s)
collected loop (some (ok none, s)) = some (ok [], s)
collected loop (some (err e, s)) = some (err e, s)

module _ {W Schema Batch : Type 0} (source : BatchStream W Schema Batch)
    (encoder : Encoder W Schema Batch) where
  unfoldable pub drain : ℕ → EncodedIpcStream W → Drained (EncodedIpcStream W)
  unfolding collected
  drain zero s = none
  drain (suc fuel) s = collected (drain fuel) (anext source encoder fuel s)

  -- The specification: from `w` the source gives batches until it ends, all calls succeed, the
  -- chunks of the batches and those of the end are `out`, and the last state is `v`.
  pub data Encodes : W → List (List ℕ) → W → Type 0 where
    ended :
        {w v : W} {out : List (List ℕ)} (u x : W)
        → source.anext w ≡ (ok none, u)
        → source.aclose u ≡ (ok tt, x)
        → encoder.finish x ≡ (ok out, v)
        → Encodes w out v
    batch :
        {w v : W} {out : List (List ℕ)} (u x : W) (b : Batch) (chunks rest : List (List ℕ))
        → source.anext w ≡ (ok (some b), u)
        → encoder.write b u ≡ (ok chunks, x)
        → Encodes x rest v
        → out ≡ chunks ++ rest
        → Encodes w out v

  -- The number of batches.
  unfoldable pub batches : {w v : W} {out : List (List ℕ)} → Encodes w out v → ℕ
  batches (ended u x e f g) = 0
  batches (batch u x b chunks rest e f d g) = suc (batches d)

  abbrev running : List (List ℕ) → W → EncodedIpcStream W
  running chunks w = record {
    pending = chunks;
    input_finished = false;
    closed = false;
    outside = w;
  }

  abbrev finished : List (List ℕ) → W → EncodedIpcStream W
  finished chunks w = record {
    pending = chunks;
    input_finished = true;
    closed = false;
    outside = w;
  }

  -- A stream that is closed after its whole input was read.
  abbrev pub exhausted : W → EncodedIpcStream W
  exhausted w = record { pending = []; input_finished = true; closed = true; outside = w }

  turn-batch :
      (w u x : W) (b : Batch) (chunks : List (List ℕ))
      → source.anext w ≡ (ok (some b), u)
      → encoder.write b u ≡ (ok chunks, x)
      → turn source encoder (running [] w) ≡ (ok true, running chunks x)
  unfolding turn
  turn-batch w u x b chunks e f = rw (e, f) refl

  turn-ended :
      (w u x v : W) (out : List (List ℕ))
      → source.anext w ≡ (ok none, u)
      → source.aclose u ≡ (ok tt, x)
      → encoder.finish x ≡ (ok out, v)
      → turn source encoder (running [] w) ≡ (ok true, finished out v)
  unfolding turn
  turn-ended w u x v out e f g = rw (e, f, g) refl

  -- A chunk that is pending is taken, and the loop begins anew.
  take_chunk :
      (chunk : List ℕ) (chunks : List (List ℕ)) (finished : Bool) (w : W) (f g : ℕ)
      → (out : List (List ℕ)) (t : EncodedIpcStream W)
      → collected (drain g) (
          wait_pending source encoder g
            (record { pending = chunks; input_finished = finished; closed = false; outside = w }))
        ≡ some (ok out, t)
      → collected (drain (suc g)) (
          wait_pending source encoder (suc f) (record {
            pending = chunk ∷ chunks;
            input_finished = finished;
            closed = false;
            outside = w;
          }))
        ≡ some (ok (chunk ∷ out), t)
  unfolding collected wait_pending drain anext
  take_chunk chunk chunks finished w f g out t h = rw h refl

  -- What is pending once the input is read.
  rest_drained :
      (chunks : List (List ℕ)) (w : W) (f g : ℕ)
      → 2 ≤ f
      → length chunks + 4 ≤ g
      → collected (drain g) (wait_pending source encoder f (finished chunks w))
        ≡ some (ok chunks, exhausted w)
  rest_drained chunks w zero g p q = absurd (omega arith)
  rest_drained chunks w (suc f) zero p q = absurd (omega arith)
  rest_drained [] w (suc f) (suc g) p q = unfold collected wait_pending turn aclose in refl
  rest_drained (chunk ∷ chunks) w (suc f) (suc g) p q =
      take_chunk chunk chunks true w f g chunks (exhausted w)
        (rest_drained chunks w g g (omega arith) (omega arith))

  new_running :
      (n : ℕ) (w v : W) (s : EncodedIpcStream W)
      → encode_ipc_stream source encoder n w ≡ (ok s, v)
      → running s.pending v ≡ s
  unfolding encode_ipc_stream
  new_running n w v s h =
      let (schema, _, h1) = >>=-eq_ok source.schema _ w h in
      let w1 = (source.schema w).1 in
      let (_, _, h2) = >>=-eq_ok (encoder.create schema n) _ w1 h1 in
      let w2 = (encoder.create schema n w1).1 in
      let (initial, _, h3) = >>=-eq_ok encoder.start _ w2 h2 in cc

  -- A turn that goes on.
  take_turn :
      (w : W) (t : EncodedIpcStream W) (f g : ℕ)
      → turn source encoder (running [] w) ≡ (ok true, t)
      → collected (drain g) (wait_pending source encoder (suc f) (running [] w))
        ≡ collected (drain g) (wait_pending source encoder f t)
  unfolding wait_pending
  take_turn w t f g e = rw e refl

  all_drained :
      {w v : W} {out : List (List ℕ)} (d : Encodes w out v) (chunks : List (List ℕ)) (f g : ℕ)
      → batches d + 3 ≤ f
      → length chunks + length out + batches d + 4 ≤ g
      → collected (drain g) (wait_pending source encoder f (running chunks w))
        ≡ some (ok (chunks ++ out), exhausted v)
  unfolding batches
  all_drained d chunks zero g p q = absurd (omega arith)
  all_drained d chunks (suc f) zero p q = absurd (omega arith)
  all_drained {w} {v} {out} d (chunk ∷ chunks) (suc f) (suc g) p q =
      take_chunk chunk chunks false w f g (chunks ++ out) (exhausted v)
        (all_drained d chunks g g (omega arith) (omega arith))
  all_drained {w} {v} {out} (ended u x e f' k) [] (suc f) (suc g) p q =
      take_turn w (finished out v) f (suc g) (turn-ended w u x v out e f' k)
      ∙ rest_drained out v f (suc g) (omega arith) (omega arith)
  all_drained {w} {v} {out} (batch u x b chunks rest e f' d same) [] (suc f) (suc g) p q =
      let sizes : length out ≡ length chunks + length rest =
        ap length same ∙ length-append chunks rest in
      take_turn w (running chunks x) f (suc g) (turn-batch w u x b chunks e f')
      ∙ (all_drained d chunks f (suc g) (omega arith) (omega arith)
          ∙ ap (λ o. some (ok o, exhausted v)) (sym same))

  -- If encode_ipc_stream returns a stream, and from the state that it leaves the source gives
  -- batches and ends, its aclose and every call of the encoder succeeding, then a consumer with
  -- fuel for the chunks and the batches gets the initial chunks, those of the batches in order
  -- and those of the end of the encoding, and the stream is closed in the state that these
  -- calls leave.
  pub drain-encode_ipc_stream :
      (n fuel : ℕ) (w w' v : W) (s : EncodedIpcStream W) (out : List (List ℕ))
      → encode_ipc_stream source encoder n w ≡ (ok s, w')
      → (d : Encodes w' out v) → length s.pending + length out + batches d + 5 ≤ fuel
      → drain fuel s ≡ some (ok (s.pending ++ out), exhausted v)
  unfolding drain
  drain-encode_ipc_stream n zero w w' v s out h d p = absurd (omega arith)
  drain-encode_ipc_stream n (suc fuel) w w' v s out h d p =
      let same = new_running n w w' s h in
      rw (sym same) (unfold anext in all_drained d s.pending fuel fuel (omega arith) (omega arith))
