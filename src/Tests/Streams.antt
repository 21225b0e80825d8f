-- ===== src/Tests/Streams.antt =====
-- Arrow IPC streams over a source with two batches and over one with two chunks.
use parqdb.Prelude.{
  ℕ, ◌/◌, Bool, ◌+◌, true, false, List, [], ◌∷◌, Option, some, none, ◌≡◌, refl, arith, eqb, eqb_iff,
}
use parqdb.Python.Exceptions.{ok, err, type_error}
use parqdb.Python.Action.{Action}
use parqdb.Ipc.{BatchStream, ByteStream, Encoder, Decoder, Item, chunk, other}
use parqdb.Ipc.Encoded
use parqdb.Ipc.Encoded.{EncodedIpcStream, encode_ipc_stream}
use parqdb.Ipc.Encoded.Turns as EncodedTurns
use parqdb.Ipc.Encoded.Closing as EncodedClosing
use parqdb.Ipc.Encoded.Closing.{Reach-closed_once, anext-closed_once}
use parqdb.Ipc.Encoded.Draining.{Encodes, drain, drain-encode_ipc_stream, exhausted, batches}
use parqdb.Ipc.Decoded
use parqdb.Ipc.Decoded.{DecodedIpcStream, decode_ipc_stream, close_async_iterator}
use parqdb.Ipc.Decoded.Turns as DecodedTurns
use parqdb.Ipc.Decoded.Closing as DecodedClosing
use parqdb.Ipc.Decoded.Opening.{decode_ipc_stream-Reach, decode_ipc_stream-eq_err}

-- What is left to read, and how often the source has been closed.
record World (A : Type 0) : Type 0 where
  left : List A
  closings : ℕ

abbrev pop_left : {A : Type 0} → Action (World A) (Option A)
pop_left w = elim w.left [
  | [] ↦ (ok none, w)
  | item ∷ items ↦ (ok (some item), record w { left = items })
]

abbrev count_closing : {A : Type 0} → Action (World A) (Unit {0})
count_closing w = (ok tt, record w { closings = w.closings + 1 })

abbrev numbers : BatchStream (World ℕ) ℕ ℕ
numbers = record { schema = λ w. (ok 7, w); anext = pop_left; aclose = count_closing }

-- A batch that is a number becomes a chunk of one byte.
abbrev byte_encoder : Encoder (World ℕ) ℕ ℕ
byte_encoder = record {
  create = λ _ _ w. (ok tt, w);
  start = λ w. (ok ((7 ∷ []) ∷ []), w);
  write = λ batch w. (ok ((batch ∷ []) ∷ []), w);
  finish = λ w. (ok ((0 ∷ []) ∷ []), w);
}

pop_left-closings : {A : Type 0} (w : World A) → (pop_left w).1.closings ≡ w.closings
pop_left-closings w = ground arith

byte_encoder-Counts : EncodedTurns.Counts numbers byte_encoder (λ w. w.closings)
byte_encoder-Counts = record {
  schema_keeps = λ w. refl;
  anext_keeps = λ w. pop_left-closings w;
  aclose_counts = λ w. refl;
  create_keeps = λ schema n w. refl;
  start_keeps = λ w. refl;
  write_keeps = λ batch w. refl;
  finish_keeps = λ w. refl;
}

abbrev two_batches : World ℕ
two_batches = record { left = 1 ∷ 2 ∷ []; closings = 0 }

abbrev opened : EncodedIpcStream (World ℕ)
opened = record {
  pending = (7 ∷ []) ∷ [];
  input_finished = false;
  closed = false;
  outside = two_batches;
}

opened_lem : encode_ipc_stream numbers byte_encoder 1024 two_batches ≡ (ok opened, two_batches)
unfolding encode_ipc_stream
opened_lem = refl

-- After two of its chunks were taken.
abbrev advanced : EncodedIpcStream (World ℕ)
advanced = record {
  pending = [];
  input_finished = false;
  closed = false;
  outside = record { left = 2 ∷ []; closings = 0 };
}

first_taken :
    Encoded.anext numbers byte_encoder 5 opened
    ≡ some (ok (some (7 ∷ [])), record opened { pending = [] })
unfolding Encoded.anext Encoded.wait_pending
first_taken = refl

second_taken :
    Encoded.anext numbers byte_encoder 5 (record opened { pending = [] })
    ≡ some (ok (some (1 ∷ [])), advanced)
unfolding Encoded.anext Encoded.wait_pending Encoded.turn
second_taken = refl

reached : EncodedClosing.Reach numbers byte_encoder opened advanced
reached =
    EncodedClosing.Reach.next
      (EncodedClosing.Reach.next EncodedClosing.Reach.here
        (EncodedClosing.Call.call_anext 5 _ first_taken))
      (EncodedClosing.Call.call_anext 5 _ second_taken)

Reach-closed_once_example :
    (advanced.outside.closings ≡ 0)
    × ((Encoded.aclose numbers byte_encoder advanced).1.outside.closings ≡ 1)
Reach-closed_once_example =
    Reach-closed_once numbers byte_encoder (λ w. w.closings) byte_encoder-Counts 1024 two_batches
      two_batches opened advanced refl opened_lem reached

abbrev closed_early : EncodedIpcStream (World ℕ)
closed_early = record {
  pending = [];
  input_finished = false;
  closed = true;
  outside = record { left = 2 ∷ []; closings = 1 };
}

closed_early_lem : Encoded.aclose numbers byte_encoder advanced ≡ (ok tt, closed_early)
unfolding Encoded.aclose
closed_early_lem = refl

nothing_more : Encoded.anext numbers byte_encoder 5 closed_early ≡ some (ok none, closed_early)
unfolding Encoded.anext
nothing_more = refl

anext-closed_once_example : closed_early.outside.closings ≡ 1
anext-closed_once_example =
    anext-closed_once numbers byte_encoder (λ w. w.closings) byte_encoder-Counts 5 1024 two_batches
      two_batches opened closed_early closed_early (ok none) refl opened_lem
      (EncodedClosing.Reach.next reached (EncodedClosing.Call.call_aclose (ok tt) closed_early_lem))
      nothing_more tt

two_encoded :
    Encodes numbers byte_encoder two_batches
      ((1 ∷ []) ∷ (2 ∷ []) ∷ (0 ∷ []) ∷ [])
      (record { left = []; closings = 1 })
two_encoded =
    Encodes.batch (record { left = 2 ∷ []; closings = 0 }) (record { left = 2 ∷ []; closings = 0 })
      1 ((1 ∷ []) ∷ []) ((2 ∷ []) ∷ (0 ∷ []) ∷ []) refl refl
      (Encodes.batch (record { left = []; closings = 0 }) (record { left = []; closings = 0 }) 2
        ((2 ∷ []) ∷ []) ((0 ∷ []) ∷ []) refl refl
        (Encodes.ended (record { left = []; closings = 0 }) (record { left = []; closings = 1 })
          refl refl refl)
        refl)
      refl

two_batches_lem : batches numbers byte_encoder two_encoded ≡ 2
unfolding two_encoded batches
two_batches_lem = refl

drain-encode_ipc_stream_example :
    drain numbers byte_encoder 20 opened
    ≡ some (
      ok ((7 ∷ []) ∷ (1 ∷ []) ∷ (2 ∷ []) ∷ (0 ∷ []) ∷ []),
      exhausted numbers byte_encoder (record { left = []; closings = 1 }),
    )
drain-encode_ipc_stream_example =
    drain-encode_ipc_stream numbers byte_encoder 1024 20 two_batches two_batches
      (record { left = []; closings = 1 }) opened _ opened_lem two_encoded
      (omega (arith, two_batches_lem))

-- A source of chunks, and one of an item that is not bytes.
abbrev items : ByteStream (World Item)
items = record { anext = pop_left; aclose = some count_closing }

-- The first byte of a chunk is the schema, and the others are a batch.
abbrev byte_decoder : Decoder (World Item) ℕ (List ℕ)
byte_decoder = record {
  create = λ _ w. (ok tt, w);
  push = λ bytes w.
      (elim bytes [ [] ↦ ok (none, none, false) | b ∷ rest ↦ ok (some b, some rest, false) ], w);
  finish = λ w. (ok tt, w);
}

byte_decoder-Counts : DecodedTurns.Counts items byte_decoder (λ w. w.closings)
unfolding close_async_iterator
byte_decoder-Counts = record {
  anext_keeps = λ w. pop_left-closings w;
  aclose_counts = λ w. refl;
  create_keeps = λ n w. refl;
  push_keeps = λ bytes w. refl;
  finish_keeps = λ w. refl;
}

-- The last digit of a schema is its metadata, which the comparison leaves out.
abbrev schema_fields : ℕ → ℕ
schema_fields schema = schema / 10

abbrev same_schema : ℕ → ℕ → Bool
same_schema a b = eqb (schema_fields a) (schema_fields b)

same_fields : (a b : ℕ) → same_schema a b ≡ true → schema_fields a ≡ schema_fields b
same_fields a b = (eqb_iff (schema_fields a) (schema_fields b)).0

abbrev two_chunks : World Item
two_chunks = record { left = chunk (70 ∷ 1 ∷ []) ∷ chunk (71 ∷ 2 ∷ []) ∷ []; closings = 0 }

abbrev decoded : DecodedIpcStream (World Item) ℕ (List ℕ)
decoded = record {
  known = some 70;
  pending = (1 ∷ []) ∷ [];
  decoder_buffered = false;
  input_finished = false;
  closed = false;
  outside = record { left = chunk (71 ∷ 2 ∷ []) ∷ []; closings = 0 };
}

abbrev decoded_all : DecodedIpcStream (World Item) ℕ (List ℕ)
decoded_all = record decoded {
  known = some 71;
  pending = [];
  outside = record { left = []; closings = 0 };
}

decoded_lem :
    decode_ipc_stream items byte_decoder same_schema 5 1024 two_chunks ≡ some (ok tt, decoded)
unfolding decode_ipc_stream Decoded.created Decoded.new Decoded.read_schema Decoded.with_schema
    Decoded.after_turn Decoded.schema_turn Decoded.read_next_chunk Decoded.received Decoded.push
    Decoded.pushed Decoded.take_schema Decoded.differs Decoded.append_batch
decoded_lem = refl

decoded_first :
    Decoded.anext items byte_decoder same_schema 5 decoded
    ≡ some (ok (some (1 ∷ [])), record decoded { pending = [] })
unfolding Decoded.anext Decoded.wait_pending Decoded.popped
decoded_first = refl

decoded_second :
    Decoded.anext items byte_decoder same_schema 5 (record decoded { pending = [] })
    ≡ some (ok (some (2 ∷ [])), decoded_all)
unfolding Decoded.anext Decoded.wait_pending Decoded.popped Decoded.turn Decoded.read_next_chunk
    Decoded.received Decoded.push Decoded.pushed Decoded.take_schema Decoded.differs
    Decoded.append_batch
decoded_second = refl

decode_ipc_stream-Reach_example :
    (k new : ℕ) × (Decoded.schema decoded ≡ ok k)
    × (Decoded.schema decoded_all ≡ ok new)
    × (schema_fields new ≡ schema_fields k)
    × ◌≡◌ {A = ℕ} 0 0
    × ((Decoded.aclose items byte_decoder same_schema decoded_all).1.outside.closings ≡ 1)
decode_ipc_stream-Reach_example =
    decode_ipc_stream-Reach items byte_decoder same_schema (λ w. w.closings) byte_decoder-Counts
      schema_fields same_fields 5 1024 two_chunks decoded decoded_all refl decoded_lem
      (DecodedClosing.Reach.next
        (DecodedClosing.Reach.next DecodedClosing.Reach.here
          (DecodedClosing.Call.call_anext 5 _ decoded_first))
        (DecodedClosing.Call.call_anext 5 _ decoded_second))

abbrev not_bytes : World Item
not_bytes = record { left = other ∷ []; closings = 0 }

abbrev refused_stream : DecodedIpcStream (World Item) ℕ (List ℕ)
refused_stream = record {
  known = none;
  pending = [];
  decoder_buffered = false;
  input_finished = false;
  closed = true;
  outside = record { left = []; closings = 1 };
}

refused_stream_lem :
    decode_ipc_stream items byte_decoder same_schema 5 1024 not_bytes
    ≡ some (
      err (record { kind = type_error; message = "Arrow IPC byte stream must yield bytes" }),
      refused_stream,
    )
unfolding decode_ipc_stream Decoded.created Decoded.new Decoded.read_schema Decoded.with_schema
    Decoded.after_turn Decoded.schema_turn Decoded.read_next_chunk Decoded.received Decoded.fail
    Decoded.aclose close_async_iterator
refused_stream_lem = refl

decode_ipc_stream-eq_err_example : refused_stream.outside.closings ≡ 1
decode_ipc_stream-eq_err_example =
    decode_ipc_stream-eq_err items byte_decoder same_schema (λ w. w.closings) byte_decoder-Counts 5
      1024 not_bytes refused_stream _ refl refl refused_stream_lem
