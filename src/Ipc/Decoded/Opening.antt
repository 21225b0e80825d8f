-- ===== src/Ipc/Decoded/Opening.antt =====
-- What decode_ipc_stream returns: a stream with a schema, or an exception with the source closed.
use parqdb.Prelude.{
  ℕ, zero, suc, Bool, true, false, Option, some, none, ◌≡◌, refl, arith, if_both, if◌then◌else◌,
  subst,
}
use parqdb.Python.Exceptions.{Result, ok, err, Exception}
use parqdb.Ipc.{ByteStream, Decoder}
use parqdb.Ipc.Decoded.{
  DecodedIpcStream, schema, aclose, schema_turn, after_turn, with_schema, read_schema, new, created,
  decode_ipc_stream,
}
use parqdb.Ipc.Decoded.Turns.{
  Counts, IsClosedOnce, is_over, Follows, aclose-Good, aclose-over, fail-Follows,
  read_next_chunk-Follows,
}
use parqdb.Ipc.Decoded.Closing.{Reach, Reach-IsClosedOnce}

schema-eq_ok :
    {W Schema Batch : Type 0} (s : DecodedIpcStream W Schema Batch) (k : Schema)
    → s.known ≡ some k
    → schema s ≡ ok k
unfolding schema
schema-eq_ok s k e = rw e refl

module _ {W Schema Batch : Type 0} (source : ByteStream W) (decoder : Decoder W Schema Batch)
    (same : Schema → Schema → Bool) (closings : W → ℕ) (c : Counts source decoder closings)
    {Content : Type 0} (fields : Schema → Content)
    (same_fields : (a b : Schema) → same a b ≡ true → fields a ≡ fields b) where
  abbrev Stream : Type 0
  Stream = DecodedIpcStream W Schema Batch

  -- A call of read_schema that has returned: the schema is there, or the source is closed.
  Opened : Option (Result (Unit {0}) × Stream) → Type 0
  Opened none = Unit
  Opened (some (ok done, s)) =
      ((k : Schema) × (s.known ≡ some k)) × IsClosedOnce closings fields none s
  Opened (some (err e, s)) = IsClosedOnce closings fields none s × (is_over s ≡ true)

  module _ (loop : Stream → Option (Result (Unit {0}) × Stream))
      (opened : (s : Stream)
        → s.closed ≡ false
        → IsClosedOnce closings fields none s
        → Opened (loop s)) where
    after_turn-Opened :
        (p : Result (Unit {0}) × Stream)
        → Follows source decoder same closings c fields same_fields none p
        → Opened (after_turn source decoder same loop p.0 p.1)
    unfolding Follows after_turn Opened
    after_turn-Opened (ok done, s) (i, p) = opened s p i
    after_turn-Opened (err e, s) h = h

    schema_turn-Follows :
        (s : Stream)
        → s.closed ≡ false
        → IsClosedOnce closings fields none s
        → Follows source decoder same closings c fields same_fields none
            (schema_turn source decoder same s)
    unfolding schema_turn
    schema_turn-Follows s p i =
        if_both (Follows source decoder same closings c fields same_fields none) s.input_finished
          (λ f. fail-Follows source decoder same closings c fields same_fields none Unit _ s i)
          (λ f.
            read_next_chunk-Follows source decoder same closings c fields same_fields none s
              (ground arith) i)

    with_schema-Opened :
        (known : Option Schema) (s : Stream)
        → s.known ≡ known
        → s.closed ≡ false
        → IsClosedOnce closings fields none s
        → Opened (with_schema source decoder same loop known s)
    unfolding with_schema
    with_schema-Opened (some k) s e p i = unfold Opened in ((k, e), i)
    with_schema-Opened none s e p i = after_turn-Opened _ (schema_turn-Follows s p i)

  read_schema-Opened :
      (fuel : ℕ) (s : Stream)
      → s.closed ≡ false
      → IsClosedOnce closings fields none s
      → Opened (read_schema source decoder same fuel s)
  unfolding read_schema
  read_schema-Opened zero s p i = unfold Opened in tt
  read_schema-Opened (suc fuel) s p i =
      with_schema-Opened (read_schema source decoder same fuel) (read_schema-Opened fuel) s.known s
        refl p i

  decode-Opened :
      (fuel n : ℕ) (w : W)
      → closings w ≡ 0
      → (decoder.create n w).0 ≡ ok tt
      → Opened (decode_ipc_stream source decoder same fuel n w)
  unfolding decode_ipc_stream
  decode-Opened fuel n w z e =
      rw e
        (unfold created new in read_schema-Opened fuel _ refl (ground (arith, c.create_keeps n w)))

  created_ok :
      (fuel n : ℕ) (w : W) (s : Stream)
      → decode_ipc_stream source decoder same fuel n w ≡ some (ok tt, s)
      → (decoder.create n w).0 ≡ ok tt
  unfolding decode_ipc_stream created
  created_ok fuel n w s h = ground arith

  -- If PyArrow finds only schemas with the same fields equal, whatever their metadata, and
  -- decode_ipc_stream returns a stream, the stream has a schema, and in every state that a
  -- consumer reaches from it by any calls of __anext__ and aclose, whatever they return or
  -- raise, it has a schema with the same fields, and the source has been closed once if the
  -- stream is closed or has read all its input and not at all if not, and a call of aclose
  -- leaves it closed once.
  pub decode_ipc_stream-Reach :
      (fuel n : ℕ) (w : W) (s t : Stream)
      → closings w ≡ 0
      → decode_ipc_stream source decoder same fuel n w ≡ some (ok tt, s)
      → Reach source decoder same s t
      → (k new : Schema) × (schema s ≡ ok k)
        × (schema t ≡ ok new)
        × (fields new ≡ fields k)
        × (closings t.outside ≡ (if is_over t then 1 else 0))
        × (closings (aclose source decoder same t).1.outside ≡ 1)
  unfolding Opened
  decode_ipc_stream-Reach fuel n w s t z h r =
      let ((k, e), i) = subst Opened h (decode-Opened fuel n w z (created_ok fuel n w s h)) in
      let j =
        Reach-IsClosedOnce source decoder same closings c fields same_fields (some k)
          (record { count = i.count; nothing_pending = i.nothing_pending; keeps = (k, e, refl) })
          r in
      let a = aclose-Good source decoder same closings c fields same_fields (some k) t j in
      let (new, known, kept) = j.keeps in
      (
        k,
        new,
        schema-eq_ok s k e,
        schema-eq_ok t new known,
        kept,
        j.count,
        rw (aclose-over source decoder same closings c fields same_fields (some k) t) at a.count,
      )

module _ {W Schema Batch : Type 0} (source : ByteStream W) (decoder : Decoder W Schema Batch)
    (same : Schema → Schema → Bool) (closings : W → ℕ) (c : Counts source decoder closings) where
  -- If decode_ipc_stream ends in an exception once its decoder was made, the source has been
  -- closed exactly once.
  pub decode_ipc_stream-eq_err :
      (fuel n : ℕ) (w : W) (s : DecodedIpcStream W Schema Batch) (e : Exception)
      → closings w ≡ 0
      → (decoder.create n w).0 ≡ ok tt
      → decode_ipc_stream source decoder same fuel n w ≡ some (err e, s)
      → closings s.outside ≡ 1
  unfolding Opened
  decode_ipc_stream-eq_err fuel n w s e z made h =
      let nothing : Schema → Unit {0} = λ _. tt in
      let all_same : (a b : Schema) → same a b ≡ true → nothing a ≡ nothing b = λ a b _. refl in
      let (i, o) =
        subst (Opened source decoder same closings c nothing all_same) h
          (decode-Opened source decoder same closings c nothing all_same fuel n w z made) in
      rw o at i.count
