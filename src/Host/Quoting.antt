-- ===== src/Host/Quoting.antt =====
-- _quote_identifier of session.py.
use Prim.Native.String
use text.Mathlib.TextLemmas.{nil-append, cons-append, append_assoc}
use parqdb.Prelude.{
  String, Char, code, Bool, true, false, not, [], ◌∷◌, Option, some, none, ◌≡◌, refl, eqb,
  Bool-cases, inl, inr, if◌then◌else◌, arith,
}
use parqdb.Text.Chars.{format, is_empty}

abbrev pub is_quote : Char → Bool
is_quote c = eqb (code c) b'"'

abbrev with_char : Char → Option (String × String) → Option (String × String)
with_char c none = none
with_char c (some (s, rest)) = some (String.◌∷◌ c s, rest)

-- identifier.replace('"', '""')
unfoldable pub doubled : String → String
doubled String.[] = ""
doubled (String.◌∷◌ c s) =
    let rest = doubled s in
    if is_quote c then String.◌∷◌ c (String.◌∷◌ c rest) else String.◌∷◌ c rest

unfoldable pub quote_identifier : String → String
unfolding doubled
quote_identifier identifier = format ("\"" ∷ doubled identifier ∷ "\"" ∷ [])

-- That a text does not go on with a quote.
abbrev pub is_end : String → Bool
is_end String.[] = true
is_end (String.◌∷◌ c s) = not (is_quote c)

-- How SQL reads a quoted identifier after its opening quote: two quotes are one, and another quote
-- ends it. The text up to there, and what follows.
unfoldable pub read_quoted : String → Option (String × String)
read_quoted String.[] = none
read_quoted (String.◌∷◌ c String.[]) = if is_quote c then some ("", "") else none
read_quoted (String.◌∷◌ c (String.◌∷◌ d s)) =
    let inner = read_quoted s in
    let rest = read_quoted (String.◌∷◌ d s) in
    if is_quote c
    then (if is_quote d then with_char d inner else some ("", String.◌∷◌ d s))
    else with_char c rest

-- The opening quote is read.
unfoldable pub opened : String → Option (String × String)
opened String.[] = none
opened (String.◌∷◌ c s) = if is_quote c then read_quoted s else none

read_quoted-end :
    (rest : String)
    → is_end rest ≡ true
    → (q : Char) → is_quote q ≡ true
    → read_quoted (String.◌∷◌ q rest) ≡ some ("", rest)
unfolding read_quoted
read_quoted-end String.[] h q e = rw e refl
read_quoted-end (String.◌∷◌ c s) h q e = ground arith

read_quoted-pair :
    (c : Char) (s : String)
    → is_quote c ≡ true
    → read_quoted (String.◌∷◌ c (String.◌∷◌ c s)) ≡ with_char c (read_quoted s)
unfolding read_quoted
read_quoted-pair c s e = rw e refl

read_quoted-other :
    (c : Char) (t : String)
    → is_quote c ≡ false
    → is_empty t ≡ false
    → read_quoted (String.◌∷◌ c t) ≡ with_char c (read_quoted t)
unfolding read_quoted
read_quoted-other c String.[] e h = cc
read_quoted-other c (String.◌∷◌ d s) e h = rw e refl

-- An end of the text that has something.
append_some : (s t : String) → is_empty t ≡ false → is_empty (String.◌++◌ s t) ≡ false
append_some String.[] t h = rw nil-append h
append_some (String.◌∷◌ c s) t h = rw cons-append refl

read_quoted-doubled :
    (s rest : String)
    → is_end rest ≡ true
    → read_quoted (String.◌++◌ (doubled s) (String.◌∷◌ "\"" rest)) ≡ some (s, rest)
unfolding doubled
read_quoted-doubled String.[] rest h = rw nil-append (read_quoted-end rest h "\"" refl)
read_quoted-doubled (String.◌∷◌ c s) rest h = elim (Bool-cases (is_quote c)) [
  | inl e ↦
      rw (e, cons-append, cons-append, read_quoted-pair c _ e, read_quoted-doubled s rest h) refl
  | inr e ↦
      rw
        (
          e,
          cons-append,
          read_quoted-other c _ e (append_some (doubled s) _ refl),
          read_quoted-doubled s rest h,
        )
        refl
]

-- A quoted identifier, followed by a text that does not begin with a quote, is read by the rule
-- for quoted identifiers of SQL as exactly the identifier, and the reading ends right before
-- that text.
pub opened-quote_identifier :
    (s rest : String)
    → is_end rest ≡ true
    → opened (String.◌++◌ (quote_identifier s) rest) ≡ some (s, rest)
unfolding quote_identifier opened format
opened-quote_identifier s rest h =
    rw (cons-append, nil-append, cons-append, append_assoc, cons-append, nil-append)
      (read_quoted-doubled s rest h)
