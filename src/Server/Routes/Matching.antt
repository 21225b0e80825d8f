-- ===== src/Server/Routes/Matching.antt =====
-- Which tables the server finds under the path that the client asks for.
use Prim.Native.String
use text.Mathlib.TextLemmas.{nil-append, cons-append}
use parqdb.Prelude.{
  String, Char, code, false, List, [], ◌∷◌, map, any, All, eqb, ◌≡◌, ◌↔◌, refl, sym, ap, ◌∙◌, arith,
}
use parqdb.Python.Exceptions.{ok, >>=-eq-ok, require-eq_ok}
use parqdb.Text.Chars.{contains, format}
use parqdb.Text.Split.{join, one, split-join}
use parqdb.Text.Quote.{quote, unquote}
use parqdb.Text.Quote.RoundTrip.{unquote-quote_append, unquote-quote, unquote-cons, IsClean-cons}
use parqdb.Identifier.{TableIdentifier, IsValid}
use parqdb.Models.Paths.{
  identifier_delimiter, check_segments, path_segments, decode_identifier_path,
}
use parqdb.Models.Checks.Laws.{NonEmpty}
use parqdb.Models.Paths.RoundTrip.{
  identifier_matches_path_iff, encode_identifier_path-eq_ok, check_segments-NonEmpty,
  path_segments-cons, is_empty-join, All_without,
}
use parqdb.Http.Routes.{table_path}
use parqdb.Http.Routes.Delimiters.{table_path_parts}
use parqdb.Server.Routes.{Route, validate_route_identifier}

-- Decoding a whole path decodes its parts, since a separator is no part of an escape.
unquote-join :
    (d : Char) (p : String) (ps : List String)
    → eqb (code d) b'%' ≡ false
    → unquote (join (one d) (map (quote "") (p ∷ ps))) ≡ join (one d) (p ∷ ps)
unfolding join contains
unquote-join d p [] h = unquote-quote "" p refl
unquote-join d p (q ∷ ps) h =
    rw (cons-append, nil-append)
      (unquote-quote_append "" p _ refl (IsClean-cons d _ h)
        ∙ ap (λ s. String.◌++◌ p s)
            (unquote-cons d _ h
              ∙ ap (λ s. String.◌∷◌ d s) (unquote-join d q ps h)
              ∙ sym (cons-append d "" _ ∙ ap (λ s. String.◌∷◌ d s) (nil-append _))))

-- What the server reads in a path that was decoded before it came.
decode_served :
    (d : Char) (p : String) (ps : List String)
    → identifier_delimiter (one d) ≡ ok d
    → any (contains d) (p ∷ ps) ≡ false
    → NonEmpty p
    → decode_identifier_path (join (one d) (p ∷ ps)) (one d) ≡ check_segments (map unquote (p ∷ ps))
unfolding decode_identifier_path
decode_served d p ps e without h =
    rw (e, is_empty-join (one d) p ps h, split-join d p ps (All_without d (p ∷ ps) without)) refl

check_segments-eq_ok : (ss path : List String) → check_segments ss ≡ ok path → path ≡ ss
unfolding check_segments
check_segments-eq_ok ss path h = ground arith

-- A path whose segments are decoded once more is accepted exactly when that changes nothing.
validate_iff :
    (r : Route) (t : TableIdentifier)
    → All NonEmpty (path_segments t)
    → decode_identifier_path r.table_id r.delimiter ≡ check_segments (map unquote (path_segments t))
    → (validate_route_identifier r t ≡ ok tt) ↔ (map unquote (path_segments t) ≡ path_segments t)
unfolding validate_route_identifier
validate_iff r t full e = (
  λ h.
      let (found, g, g') = >>=-eq-ok (decode_identifier_path r.table_id r.delimiter) _ h in
      let same = check_segments-eq_ok (map unquote (path_segments t)) found (sym e ∙ g) in
      let matched = (identifier_matches_path_iff t found).0 (require-eq_ok _ _ _ g') in
      sym (matched ∙ same),
  λ fixed.
      rw
        (
          e,
          fixed,
          check_segments-NonEmpty (path_segments t) full,
          (identifier_matches_path_iff t (path_segments t)).1 refl,
        )
        refl,
)

module _ (decode_path : String → String) (decodes : (s : String) → decode_path s ≡ unquote s) where
  -- If the web server hands over a path after one percent-decoding, the route check accepts the
  -- path that the client makes for a valid table exactly when a further percent-decoding
  -- changes none of the segments of the table.
  pub route_accepted_iff :
      (t : TableIdentifier) (operation path delimiter index : String)
      → IsValid t
      → table_path t operation ≡ ok (path, delimiter)
      → (middle : String) × (path ≡ format ("v1/table/" ∷ middle ∷ "/" ∷ operation ∷ []))
        × ((validate_route_identifier
                (record {
                  table_id = decode_path middle;
                  delimiter = delimiter;
                  index_name = index;
                })
                t
              ≡ ok tt)
            ↔ (map unquote (path_segments t) ≡ path_segments t))
  route_accepted_iff t operation path delimiter index v h =
      let (d, middle, (_, not_percent, _), e, same) =
        table_path_parts t operation path delimiter h in
      let (e', without, same_middle, same_delimiter) =
        encode_identifier_path-eq_ok t d middle delimiter e in
      let (p, ps, parts, full) = path_segments-cons t v in
      let served : decode_path middle ≡ join (one d) (p ∷ ps) =
        decodes middle ∙ ap unquote (rw parts at same_middle) ∙ unquote-join d p ps not_percent in
      (
        middle,
        same,
        validate_iff _ t (rw parts full) (
            rw (served, same_delimiter, parts)
              (decode_served d p ps e' (rw parts at without) full.0)),
      )
