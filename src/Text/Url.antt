-- ===== src/Text/Url.antt =====
-- urllib.parse.urlsplit. Its checks of an authority with brackets or with characters beyond ASCII are
-- a parameter.

use parqdb.Prelude.{
  ℕ, ◌+◌, ◌≡◌, refl, String, Char, code, Bool, true, false, not, ◌&&◌, ◌||◌, leb, eqb, Option, some,
  none, if◌then◌else◌,
}
use parqdb.Python.Exceptions.{Result, ok, ◌>>◌}
use parqdb.Text.Chars.{is_empty, to_char}

pub record SplitResult : Type 0 where
  pub scheme : String
  pub netloc : String
  pub path : String
  pub query : String
  pub fragment : String

between : ℕ → ℕ → Char → Bool
between lo hi c = leb lo (code c) && leb (code c) hi

-- The text before the first character that passes the test, and the text from it on.
abbrev before : (Char → Bool) → String → String
before p String.[] = ""
before p (String.◌∷◌ c s) = if p c then "" else String.◌∷◌ c (before p s)

abbrev from : (Char → Bool) → String → String
from p String.[] = ""
from p (String.◌∷◌ c s) = if p c then String.◌∷◌ c s else from p s

abbrev rest : String → String
rest String.[] = ""
rest (String.◌∷◌ c s) = s

abbrev is : ℕ → Char → Bool
is n c = eqb (code c) n

abbrev keep : (Char → Bool) → String → String
keep p String.[] = ""
keep p (String.◌∷◌ c s) = if p c then String.◌∷◌ c (keep p s) else keep p s

abbrev all_of : (Char → Bool) → String → Bool
all_of p String.[] = true
all_of p (String.◌∷◌ c s) = p c && all_of p s

is_letter : Char → Bool
unfolding between
is_letter c = between 65 90 c || between 97 122 c

is_scheme_character : Char → Bool
unfolding is_letter
is_scheme_character c = is_letter c || between 48 57 c || is b'+' c || is b'-' c || is b'.' c

lower_character : Char → Char
unfolding between
lower_character c = if between 65 90 c then to_char (code c + 32) else c

-- s.lower() of a text of scheme characters.
unfoldable pub lower : String → String
unfolding lower_character
lower String.[] = ""
lower (String.◌∷◌ c s) = String.◌∷◌ (lower_character c) (lower s)

abbrev first_letter : String → Bool
first_letter String.[] = false
first_letter (String.◌∷◌ c s) = is_letter c

-- Whether a colon ends a scheme.
has_scheme : String → Bool
unfolding is_scheme_character
has_scheme url =
    let scheme = before (is b':') url in
    not (is_empty (from (is b':') url)) && first_letter scheme && all_of is_scheme_character scheme

-- The text after `//`, if that is how it begins.
after_slashes : String → Option String
after_slashes (String.◌∷◌ a (String.◌∷◌ b s)) = if is b'/' a && is b'/' b then some s else none
after_slashes _ = none

abbrev ends_netloc : Char → Bool
ends_netloc c = is b'/' c || is b'?' c || is b'#' c

-- What the scheme and the authority leave.
tail_of : String → String → String → SplitResult
tail_of scheme netloc url =
    let unfragmented = before (is b'#') url in
    record {
      scheme = scheme;
      netloc = netloc;
      path = before (is b'?') unfragmented;
      query = rest (from (is b'?') unfragmented);
      fragment = rest (from (is b'#') url);
    }

unfoldable pub urlsplit : (String → Result (Unit {0})) → String → Result SplitResult
unfolding has_scheme after_slashes tail_of
urlsplit check_netloc reference =
    let url =
      keep (λ c. not (is 9 c || is 10 c || is 13 c))
        (from (λ c. not (leb (code c) 32)) reference) in
    let scheme = if has_scheme url then lower (before (is b':') url) else "" in
    let hierarchy = if has_scheme url then rest (from (is b':') url) else url in
    elim (after_slashes hierarchy) [
      | none ↦ ok (tail_of scheme "" hierarchy)
      | some s ↦ (do
        check_netloc (before ends_netloc s)
        ok (tail_of scheme (before ends_netloc s) (from ends_netloc s)))
    ]

url_sample :
    urlsplit (λ s. ok tt) "s3://bucket/a%20b/c.parquet?x#y"
    ≡ ok (record {
      scheme = "s3";
      netloc = "bucket";
      path = "/a%20b/c.parquet";
      query = "x";
      fragment = "y";
    })
unfolding urlsplit lower to_char
url_sample = refl
