-- ===== src/Ipc/Decoded/Turns.antt =====
-- What each method of a decoding stream does to the count of the closings of its source, and to
-- its schema.
use parqdb.Prelude.{
  ℕ, ◌+◌, Bool, true, false, ◌||◌, List, [], Option, some, none, ◌≡◌, refl, arith, if_both,
  if◌then◌else◌, ◌∙◌, ap,
}
use parqdb.Python.Exceptions.{Result, ok, err, Exception}
use parqdb.Python.Action.{after, lift}
use parqdb.Ipc.{ByteStream, Decoder, Item, chunk, other}
use parqdb.Ipc.Decoded.{
  DecodedIpcStream, close_async_iterator, aclose, fail, append_batch, differs, take_schema, pushed,
  push, finished, received, read_next_chunk,
}

-- How often the source has been closed, by its aclose: a call is counted, whether it raises or
-- not, and no other call is.
pub record Counts {W Schema Batch : Type 0} (source : ByteStream W)
    (decoder : Decoder W Schema Batch) (closings : W → ℕ) : Type 0 where
  pub anext_keeps : (w : W) → closings (source.anext w).1 ≡ closings w
  pub aclose_counts : (w : W) → closings (close_async_iterator source w).1 ≡ closings w + 1
  pub create_keeps : (n : ℕ) (w : W) → closings (decoder.create n w).1 ≡ closings w
  pub push_keeps : (bytes : List ℕ) (w : W) → closings (decoder.push bytes w).1 ≡ closings w
  pub finish_keeps : (w : W) → closings (decoder.finish w).1 ≡ closings w

-- That the stream needs its source no more.
abbrev pub is_over : {W Schema Batch : Type 0} → DecodedIpcStream W Schema Batch → Bool
is_over s = s.closed || s.input_finished

-- Once a schema is known, there is one with the same fields.
abbrev pub Keeps :
    {Schema Content : Type 0} → (Schema → Content) → Option Schema → Option Schema → Type 0
Keeps fields none known = Unit
Keeps {Schema} fields (some k) known = (new : Schema) × (known ≡ some new) × (fields new ≡ fields k)

-- The source is closed once if the stream is over, and not at all if not.
pub record IsClosedOnce {W Schema Batch Content : Type 0} (closings : W → ℕ)
    (fields : Schema → Content) (before : Option Schema) (s : DecodedIpcStream W Schema Batch)
    : Type 0 where
  pub count : closings s.outside ≡ (if is_over s then 1 else 0)
  pub nothing_pending : s.closed ≡ true → s.pending ≡ []
  pub keeps : Keeps fields before s.known

module _ {W Schema Batch : Type 0} (source : ByteStream W) (decoder : Decoder W Schema Batch)
    (same : Schema → Schema → Bool) (closings : W → ℕ) (c : Counts source decoder closings)
    {Content : Type 0} (fields : Schema → Content)
    (same_fields : (a b : Schema) → same a b ≡ true → fields a ≡ fields b)
    (before : Option Schema) where
  abbrev State : Type 0
  State = DecodedIpcStream W Schema Batch

  abbrev Good : State → Type 0
  Good = IsClosedOnce closings fields before

  pub aclose-Good : (s : State) → Good s → Good (aclose source decoder same s).1
  unfolding aclose
  aclose-Good s i = record {
    count = ground (arith, i.count, c.aclose_counts s.outside);
    nothing_pending = ground (arith, i.nothing_pending);
    keeps =
        if_both (λ (p : Result (Unit {0}) × State). Keeps fields before p.1.known) s.closed
          (λ _. i.keeps)
          (λ _.
            if_both (λ (p : Result (Unit {0}) × State). Keeps fields before p.1.known)
              s.input_finished (λ _. i.keeps) (λ _. i.keeps));
  }

  pub aclose-over : (s : State) → is_over (aclose source decoder same s).1 ≡ true
  unfolding aclose
  aclose-over s = ground arith

  moved-Good :
      (s : State) (w : W)
      → closings w ≡ closings s.outside
      → Good s
      → Good (record s { outside = w })
  moved-Good s w e i = record {
    count = e ∙ i.count;
    nothing_pending = i.nothing_pending;
    keeps = i.keeps;
  }

  -- What a read leaves: a state to go on from, or an iteration that is over.
  unfoldable pub Follows : {A : Type 0} → Result A × State → Type 0
  Follows (ok a, s) = Good s × (s.closed ≡ false)
  Follows (err e, s) = Good s × (is_over s ≡ true)

  fail_after :
      (A : Type 0) (e : Exception) (r : Result (Unit {0})) (s : State)
      → Good s
      → is_over s ≡ true
      → Follows {A = A} (after r s (λ _. lift (err e)))
  unfolding Follows
  fail_after A e (ok done) s i o = (i, o)
  fail_after A e (err f) s i o = (i, o)

  pub fail-Follows :
      (A : Type 0) (e : Exception) (s : State)
      → Good s
      → Follows {A = A} (fail source decoder same (err e) s)
  unfolding fail
  fail-Follows A e s i = fail_after A e _ _ (aclose-Good s i) (aclose-over s)

  append_batch-Follows :
      (batch : Option Batch) (s : State)
      → s.closed ≡ false
      → Good s
      → Follows (append_batch source decoder same batch s)
  unfolding append_batch Follows
  append_batch-Follows none s p i = (i, p)
  append_batch-Follows (some batch) s p i =
      (record { count = i.count; nothing_pending = ground arith; keeps = i.keeps }, p)

  some_injective : {a b : Schema} → some a ≡ some b → a ≡ b
  some_injective e = cc

  set_schema :
      (k : Option Schema) (o : Option Schema) (new : Schema)
      → Keeps fields k o
      → differs source decoder same o new ≡ false
      → Keeps fields k (some new)
  unfolding differs
  set_schema none o new h d = tt
  set_schema (some k) none new (old, known, kept) d = cc
  set_schema (some k) (some o) new (old, known, kept) d =
      (new, refl, same_fields new o (ground arith) ∙ ap fields (some_injective known) ∙ kept)

  take_schema-Follows :
      (new : Option Schema) (s : State)
      → s.closed ≡ false
      → Good s
      → Follows (take_schema source decoder same new s)
  unfolding take_schema
  take_schema-Follows none s p i = unfold Follows in (i, p)
  take_schema-Follows (some new) s p i =
      if_both Follows (differs source decoder same s.known new) (λ d. fail-Follows Unit _ s i)
        (λ d.
          unfold Follows in
          (
            record {
              count = i.count;
              nothing_pending = i.nothing_pending;
              keeps = set_schema before s.known new i.keeps d;
            },
            p,
          ))

  append_after :
      (batch : Option Batch) (r : Result (Unit {0})) (s : State)
      → Follows (r, s)
      → Follows (after r s (λ _. append_batch source decoder same batch))
  unfolding Follows
  append_after batch (err e) s h = h
  append_after batch (ok done) s (i, p) = append_batch-Follows batch s p i

  pushed-Follows :
      (r : Result (Option Schema × Option Batch × Bool)) (s : State)
      → s.closed ≡ false
      → Good s
      → Follows (pushed source decoder same r s)
  unfolding pushed
  pushed-Follows (err e) s p i = fail-Follows Unit e s i
  pushed-Follows (ok (new, batch, buffered)) s p i =
      let t = record s { decoder_buffered = buffered } in
      append_after batch _ _ (
        take_schema-Follows new t p
          (record { count = i.count; nothing_pending = i.nothing_pending; keeps = i.keeps }))

  push-Follows :
      (bytes : List ℕ) (s : State)
      → s.closed ≡ false
      → Good s
      → Follows (push source decoder same bytes s)
  unfolding push
  push-Follows bytes s p i =
      pushed-Follows _ (record s { outside = (decoder.push bytes s.outside).1 }) p
        (moved-Good s _ (c.push_keeps bytes s.outside) i)

  closed_source :
      (r : Result (Unit {0})) (s : State)
      → s.closed ≡ false
      → s.input_finished ≡ true
      → Good s
      → Follows (r, s)
  unfolding Follows
  closed_source (ok done) s p f i = (i, p)
  closed_source (err e) s p f i = (i, ground arith)

  finished-Follows :
      (r : Result (Unit {0})) (s : State)
      → is_over s ≡ false
      → Good s
      → Follows (finished source decoder same r s)
  unfolding finished
  finished-Follows (err e) s o i = fail-Follows Unit e s i
  finished-Follows (ok done) s o i =
      let w = (close_async_iterator source s.outside).1 in
      closed_source _ (record s { input_finished = true; outside = w }) (ground arith) refl
        (record {
          count = ground (arith, i.count, c.aclose_counts s.outside);
          nothing_pending = i.nothing_pending;
          keeps = i.keeps;
        })

  received-Follows :
      (r : Result (Option Item)) (s : State)
      → is_over s ≡ false
      → Good s
      → Follows (received source decoder same r s)
  unfolding received
  received-Follows (err e) s o i = fail-Follows Unit e s i
  received-Follows (ok none) s o i =
      finished-Follows _ (record s { outside = (decoder.finish s.outside).1 }) (ground arith)
        (moved-Good s _ (c.finish_keeps s.outside) i)
  received-Follows (ok (some other)) s o i = fail-Follows Unit _ s i
  received-Follows (ok (some (chunk bytes))) s o i = push-Follows bytes s (ground arith) i

  pub read_next_chunk-Follows :
      (s : State) → is_over s ≡ false → Good s → Follows (read_next_chunk source decoder same s)
  unfolding read_next_chunk
  read_next_chunk-Follows s o i =
      if_both Follows s.decoder_buffered (λ _. push-Follows [] s (ground arith) i)
        (λ _.
          received-Follows _ (record s { outside = (source.anext s.outside).1 }) (ground arith)
            (moved-Good s _ (c.anext_keeps s.outside) i))
