-- ===== src/Server/Tables/Tokens.antt =====
-- The tokens and the contents of the pages that the server makes of the list of tables.
use parqdb.Prelude.{
  ℕ, zero, suc, ◌≤◌, ◌<◌, String, true, false, List, [], ◌∷◌, ◌++◌, map, length, take, drop, All,
  Option, some, none, ◌≡◌, ◌⊎◌, inl, inr, refl, sym, ◌∙◌, ap, arith, Bool-cases, eq_iff,
}
use parqdb.Python.Int.{ℤ, pos}
use parqdb.Python.Exceptions.{ok, err, map_result}
use parqdb.Python.Value.{of_items, items-of_items, items}
use parqdb.Text.Chars.{is_empty, member}
use parqdb.Text.Decimal.{of_nat, to_int}
use parqdb.Text.Decimal.RoundTrip.{to_int-of_nat}
use parqdb.Identifier.{TableIdentifier, IsValid}
use parqdb.Models.Identifiers.{identifier_to_json, identifier_from_json}
use parqdb.Models.Identifiers.RoundTrip.{identifier_from_json-to_json}
use parqdb.Models.Checks.Laws.{map_result-map}
use parqdb.Server.Requests.{Request}
use parqdb.Server.Tables.{page_of, integers, checked}

of_nat_injective : (m n : ℕ) → of_nat m ≡ of_nat n → m ≡ n
of_nat_injective m n h =
    let same : some (pos m) ≡ some (pos n) =
      sym (to_int-of_nat m) ∙ ap to_int h ∙ to_int-of_nat n in
    cc

-- The token of an offset.
abbrev pub At : Option String → ℕ → Type 0
At token o = ((token ≡ none) × (o ≡ 0)) ⊎ (token ≡ some (of_nat o))

-- The request for a page, as the web server hands it over.
abbrev pub page_request : Request → Option String → Request
page_request r token = record {
  route = r.route;
  limit = some "1000";
  page_token = token;
  content_type = r.content_type;
  content_length = r.content_length;
  x_request_id = r.x_request_id;
  chunks = r.chunks;
  uuid = r.uuid;
}

thousand : to_int "1000" ≡ some (pos 1000)
unfolding to_int
thousand = refl

nought : to_int "0" ≡ some (pos 0)
unfolding to_int
nought = refl

some_injective : {s t : String} → some s ≡ some t → s ≡ t
some_injective h = cc

pair_lem :
    (a b : Option ℤ) (o : ℕ)
    → a ≡ some (pos 1000)
    → b ≡ some (pos o)
    → elim (integers a b) [ ok n ↦ checked n | err e ↦ err e ] ≡ ok (1000, o)
unfolding integers checked
pair_lem a b o h k = rw (h, k) refl

pub page_of-page_request :
    (r : Request) (token : Option String) (o : ℕ)
    → At token o
    → page_of (page_request r token) ≡ ok (1000, o)
unfolding page_of
page_of-page_request r none o (inl (e, z)) =
    pair_lem (to_int "1000") (to_int "0") o thousand (rw z nought)
page_of-page_request r (some t) o (inl (e, z)) = cc
page_of-page_request r none o (inr e) = cc
page_of-page_request r (some t) o (inr e) =
    pair_lem (to_int "1000") (to_int t) o thousand (rw (some_injective e) (to_int-of_nat o))

pub take-All : (n : ℕ) (ts : List TableIdentifier) → All IsValid ts → All IsValid (take n ts)
take-All zero ts h = tt
take-All (suc n) [] h = tt
take-All (suc n) (t ∷ ts) (v, h) = (v, take-All n ts h)

pub drop-All : (n : ℕ) (ts : List TableIdentifier) → All IsValid ts → All IsValid (drop n ts)
drop-All zero ts h = h
drop-All (suc n) [] h = tt
drop-All (suc n) (t ∷ ts) (v, h) = drop-All n ts h

pub drop-append : (xs ys : List TableIdentifier) → drop (length xs) (xs ++ ys) ≡ ys
drop-append [] ys = refl
drop-append (x ∷ xs) ys = drop-append xs ys

pub take_all : (n : ℕ) (xs : List TableIdentifier) → length xs ≤ n → take n xs ≡ xs
take_all zero [] h = refl
take_all zero (x ∷ xs) h = absurd (ground arith)
take_all (suc n) [] h = refl
take_all (suc n) (x ∷ xs) h = ap (λ ys. x ∷ ys) (take_all n xs (omega (arith, h)))

map_id : (xs : List TableIdentifier) → map (λ x. x) xs ≡ xs
map_id [] = refl
map_id (x ∷ xs) = ap (λ ys. x ∷ ys) (map_id xs)

-- A page's identifiers come back as they were.
pub tables-read :
    (ts : List TableIdentifier)
    → All IsValid ts
    → map_result identifier_from_json (items (of_items (map identifier_to_json ts))) ≡ ok ts
tables-read ts h = rw (items-of_items (map identifier_to_json ts)) (
    map_result-map identifier_from_json identifier_to_json (λ t. t) IsValid
      identifier_from_json-to_json ts h
    ∙ ap ok (map_id ts))

-- Every token that was seen is that of an offset up to `o`.
abbrev pub IsSeen : ℕ → String → Type 0
IsSeen o t = (k : ℕ) × (t ≡ of_nat k) × (k ≤ o)

pub member-seen :
    (o n : ℕ) (seen : List String) → o < n → All (IsSeen o) seen → member (of_nat n) seen ≡ false
member-seen o n [] lt h = refl
member-seen o n (t ∷ seen) lt ((k, e, le), h) =
    rw (member-seen o n seen lt h) (ground (arith, eq_iff t (of_nat n), of_nat_injective k n, e))

to_int_nothing : to_int "" ≡ none
unfolding to_int
to_int_nothing = refl

nothing-reads : (n : ℕ) (s : String) → is_empty s ≡ true → to_int s ≡ some (pos n) → ⊥
unfolding to_int
nothing-reads n String.[] e h = let none_read = to_int_nothing in cc
nothing-reads n (String.◌∷◌ c s) e h = cc

pub is_empty-of_nat : (n : ℕ) → is_empty (of_nat n) ≡ false
is_empty-of_nat n = elim (Bool-cases (is_empty (of_nat n))) [
  | inr e ↦ e
  | inl e ↦ absurd (nothing-reads n (of_nat n) e (to_int-of_nat n))
]
