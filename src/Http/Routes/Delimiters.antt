-- ===== src/Http/Routes/Delimiters.antt =====
-- The delimiter that the client chooses, and the path that it makes with it.
use parqdb.Prelude.{
  String, Char, code, true, false, not, List, [], ◌∷◌, any, all, ◌≡◌, refl, sym, ◌∙◌, subst, ap,
  arith, Bool-cases, inl, inr, All, eqb,
}
use parqdb.Python.Exceptions.{ok, >>=-eq-ok, ok_injective}
use parqdb.Text.Chars.{contains, format}
use parqdb.Text.Split.{one}
use parqdb.Identifier.{TableIdentifier, IsValid}
use parqdb.Models.Paths.{path_segments, encode_identifier_path, decode_identifier_path}
use parqdb.Models.Paths.RoundTrip.{IsSeparator, decode-encode_identifier_path}
use parqdb.Http.Routes.{
  candidates, choose, choose_delimiter, choose_delimiter_for_segments, table_path,
}

abbrev pub IsCandidate : Char → Type 0
IsCandidate d = IsSeparator d × (eqb (code d) b'%' ≡ false) × (eqb (code d) b'/' ≡ false)

any_of_all :
    (d : Char) (ss : List String)
    → all (λ s. not (contains d s)) ss ≡ true
    → any (contains d) ss ≡ false
any_of_all d [] h = refl
any_of_all d (s ∷ ss) h = ground (arith, any_of_all d ss)

choose_sound :
    (ds : List Char) (ss : List String) (d : Char)
    → All IsCandidate ds
    → choose ds ss ≡ ok d
    → IsCandidate d × (any (contains d) ss ≡ false)
unfolding choose
choose_sound [] ss d k h = cc
choose_sound (c ∷ cs) ss d (k, ks) h = elim (Bool-cases (all (λ s. not (contains c s)) ss)) [
  | inl p ↦
      subst (λ e. IsCandidate e × (any (contains e) ss ≡ false)) (ok_injective (rw p at h))
        (k, any_of_all c ss p)
  | inr p ↦ choose_sound cs ss d ks (rw p at h)
]

abbrev fits : All IsCandidate candidates
fits = (
  (refl, refl, refl),
  ((refl, refl, refl), ((refl, refl, refl), ((refl, refl, refl), ((refl, refl, refl), tt)))),
)

choose_delimiter_sound :
    (ss : List String) (d : Char)
    → choose_delimiter_for_segments ss ≡ ok d
    → IsCandidate d × (any (contains d) ss ≡ false)
unfolding choose_delimiter_for_segments
choose_delimiter_sound ss d h = choose_sound candidates ss d fits h

-- The delimiter that was chosen, and the middle part of the path.
pub table_path_parts :
    (t : TableIdentifier) (operation path delimiter : String)
    → table_path t operation ≡ ok (path, delimiter)
    → (d : Char) × (middle : String) × IsCandidate d
      × (encode_identifier_path t (one d) ≡ ok (middle, delimiter))
      × (path ≡ format ("v1/table/" ∷ middle ∷ "/" ∷ operation ∷ []))
unfolding table_path choose_delimiter
table_path_parts t operation path delimiter h =
    let (d, chosen, h₁) = >>=-eq-ok (choose_delimiter t) _ h in
    let (encoded, e, h₂) = >>=-eq-ok (encode_identifier_path t (one d)) _ h₁ in
    let (candidate, _) = choose_delimiter_sound (path_segments t) d chosen in
    let same = ok_injective h₂ in
    (
      d,
      encoded.0,
      candidate,
      e ∙ ap (λ (s : String). ok (encoded.0, s)) (ap (λ (p : String × String). p.1) same),
      sym (ap (λ (p : String × String). p.0) same),
    )

-- A request path that the client makes for a valid table has a middle part that, with the
-- delimiter it sends, decodes to the table's namespace and name.
pub table_path_decodes :
    (t : TableIdentifier) (operation path delimiter : String)
    → IsValid t
    → table_path t operation ≡ ok (path, delimiter)
    → (middle : String) × (path ≡ format ("v1/table/" ∷ middle ∷ "/" ∷ operation ∷ []))
      × (decode_identifier_path middle delimiter ≡ ok (path_segments t))
table_path_decodes t operation path delimiter v h =
    let (d, middle, candidate, e, same) = table_path_parts t operation path delimiter h in
    (middle, same, decode-encode_identifier_path t d middle delimiter v candidate.0 e)
