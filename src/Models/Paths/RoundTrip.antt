-- ===== src/Models/Paths/RoundTrip.antt =====
-- Paths of identifiers: encoding and decoding, and what a decoded path matches.
use Prim.Native.String
use text.Mathlib.TextLemmas.{cons-append}
use parqdb.Prelude.{
  String, Char, code, true, false, eq_iff, eq_refl, List, [], ◌∷◌, ◌++◌, map, eqb, any, All,
  All-append, ◌≡◌, ◌↔◌, refl, sym, ap, ◌∙◌, arith,
}
use parqdb.Python.Exceptions.{ok, >>=-eq-ok}
use parqdb.Text.Chars.{contains}
use parqdb.Text.Split.{join, one, split-join}
use parqdb.Text.Quote.{quote, unquote}
use parqdb.Text.Quote.RoundTrip.{unquote-quote, contains-quote, is_escape_character, is_empty-quote}
use parqdb.Identifier.{TableIdentifier, IsValid}
use parqdb.Models.Checks.Laws.{NonEmpty, any-is_empty}
use parqdb.Models.Paths.{
  identifier_delimiter, path_segments, encode_segments, encode_identifier_path, check_segments,
  decode_identifier_path, same_segments, identifier_matches_path,
}

pub identifier_delimiter-eq_ok :
    (s : String) (d : Char)
    → identifier_delimiter s ≡ ok d
    → (s ≡ one d) × (eqb (code d) b'%' ≡ false) × (eqb (code d) b'/' ≡ false)
unfolding identifier_delimiter
identifier_delimiter-eq_ok String.[] d h = cc
identifier_delimiter-eq_ok (String.◌∷◌ c String.[]) d h = (ground arith, ground arith, ground arith)
identifier_delimiter-eq_ok (String.◌∷◌ c (String.◌∷◌ _ _)) d h = cc

module _ (d : Char) where
  quoted_without :
      (ss : List String)
      → is_escape_character (code d) ≡ false
      → any (contains d) ss ≡ false
      → All (λ s. contains d s ≡ false) (map (quote "") ss)
  quoted_without [] h k = tt
  quoted_without (s ∷ ss) h k =
      (contains-quote "" d s h (ground arith), quoted_without ss h (ground arith))

  pub All_without :
      (ss : List String) → any (contains d) ss ≡ false → All (λ s. contains d s ≡ false) ss
  All_without [] k = tt
  All_without (s ∷ ss) k = (ground arith, All_without ss (ground arith))

map-unquote-quote : (ss : List String) → map unquote (map (quote "") ss) ≡ ss
unfolding contains
map-unquote-quote [] = refl
map-unquote-quote (s ∷ ss) = rw (unquote-quote "" s refl, map-unquote-quote ss) refl

is_empty-append : (s t : String) → NonEmpty s → NonEmpty (String.◌++◌ s t)
is_empty-append String.[] t h = cc
is_empty-append (String.◌∷◌ c s) t h = rw cons-append refl

pub is_empty-join : (sep p : String) (ps : List String) → NonEmpty p → NonEmpty (join sep (p ∷ ps))
unfolding join
is_empty-join sep p [] h = h
is_empty-join sep p (q ∷ ps) h = is_empty-append p _ h

pub check_segments-NonEmpty : (ss : List String) → All NonEmpty ss → check_segments ss ≡ ok ss
unfolding check_segments
check_segments-NonEmpty ss h = rw (any-is_empty ss h) refl

snoc_cons :
    (ns : List String) (n : String)
    → All NonEmpty ns
    → NonEmpty n
    → (p : String) × (ps : List String) × (ns ++ n ∷ [] ≡ p ∷ ps) × All NonEmpty (p ∷ ps)
snoc_cons [] n h k = (n, [], refl, (k, tt))
snoc_cons (m ∷ ns) n (h, hs) k =
    (m, ns ++ n ∷ [], refl, (h, All-append NonEmpty ns (n ∷ []) hs (k, tt)))

-- There is a first segment, and none is empty.
pub path_segments-cons :
    (t : TableIdentifier)
    → IsValid t
    → (p : String) × (ps : List String) × (path_segments t ≡ p ∷ ps) × All NonEmpty (p ∷ ps)
path_segments-cons t v = snoc_cons t.namespace t.name v.namespace v.name

same_segments_refl : (ss : List String) → same_segments ss ss ≡ true
same_segments_refl [] = refl
same_segments_refl (s ∷ ss) = rw (eq_refl s) (same_segments_refl ss)

same_segments_eq : (ss ts : List String) → same_segments ss ts ≡ true → ss ≡ ts
same_segments_eq [] [] h = refl
same_segments_eq [] (t ∷ ts) h = cc
same_segments_eq (s ∷ ss) [] h = cc
same_segments_eq (s ∷ ss) (t ∷ ts) h = ground (arith, eq_iff s t, same_segments_eq ss ts)

pub identifier_matches_path_iff :
    (t : TableIdentifier) (path : List String)
    → (identifier_matches_path t path ≡ true) ↔ (path_segments t ≡ path)
unfolding identifier_matches_path
identifier_matches_path_iff t path =
    (same_segments_eq (path_segments t) path, λ e. rw (← e) (same_segments_refl (path_segments t)))

-- A delimiter that an escape can hold would be found inside the escapes.
abbrev pub IsSeparator : Char → Type 0
IsSeparator d = is_escape_character (code d) ≡ false

decode_quoted :
    (d : Char) (p : String) (ps : List String)
    → IsSeparator d
    → identifier_delimiter (one d) ≡ ok d
    → any (contains d) (p ∷ ps) ≡ false
    → All NonEmpty (p ∷ ps)
    → decode_identifier_path (join (one d) (map (quote "") (p ∷ ps))) (one d) ≡ ok (p ∷ ps)
unfolding decode_identifier_path
decode_quoted d p ps sep e without (h, hs) =
    rw
      (
        e,
        is_empty-join (one d) (quote "" p) (map (quote "") ps) (is_empty-quote "" p h),
        split-join d (quote "" p) (map (quote "") ps) (quoted_without d (p ∷ ps) sep without),
      )
      (ap check_segments (map-unquote-quote (p ∷ ps)) ∙ check_segments-NonEmpty (p ∷ ps) (h, hs))

identifier_delimiter-one : (d c : Char) → identifier_delimiter (one d) ≡ ok c → d ≡ c
unfolding identifier_delimiter
identifier_delimiter-one d c h = ground arith

encode_segments-eq_ok :
    (d : Char) (ss : List String) (path d' : String)
    → encode_segments d ss ≡ ok (path, d')
    → (any (contains d) ss ≡ false) × (path ≡ join (one d) (map (quote "") ss)) × (d' ≡ one d)
unfolding encode_segments
encode_segments-eq_ok d ss path d' h = ground arith

-- The parts of an encoded path.
pub encode_identifier_path-eq_ok :
    (t : TableIdentifier) (d : Char) (path delimiter : String)
    → encode_identifier_path t (one d) ≡ ok (path, delimiter)
    → (identifier_delimiter (one d) ≡ ok d)
      × (any (contains d) (path_segments t) ≡ false)
      × (path ≡ join (one d) (map (quote "") (path_segments t)))
      × (delimiter ≡ one d)
unfolding encode_identifier_path
encode_identifier_path-eq_ok t d path delimiter h =
    let (c, e, h') = >>=-eq-ok (identifier_delimiter (one d)) _ h in
    let c-eq-d = sym (identifier_delimiter-one d c e) in
    let (without, same, same') =
      encode_segments-eq_ok d (path_segments t) path delimiter (rw c-eq-d at h') in
    (rw c-eq-d at e, without, same, same')

-- For a valid table and a delimiter that is neither the percent sign nor a hexadecimal digit of
-- an escape, whatever path the encoding returns decodes to the table's namespace and name.
pub decode-encode_identifier_path :
    (t : TableIdentifier) (d : Char) (path delimiter : String)
    → IsValid t
    → IsSeparator d
    → encode_identifier_path t (one d) ≡ ok (path, delimiter)
    → decode_identifier_path path delimiter ≡ ok (path_segments t)
decode-encode_identifier_path t d path delimiter v sep h =
    let (e, without, same, same') = encode_identifier_path-eq_ok t d path delimiter h in
    let (p, ps, parts, full) = path_segments-cons t v in
    rw (same, same', parts) (decode_quoted d p ps sep e (rw parts at without) full)
