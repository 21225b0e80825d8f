-- ===== src/Tests/Schemas.antt =====
-- A concrete Arrow: schemas are lists of names of columns of one type. In a serialized schema "x"
-- stands before every character of a name, "." after a name and "#" at the end.

use parqdb.Prelude.{
  String, Char, code, Bool, true, false, List, [], ◌∷◌, Option, some, none, ◌≡◌, refl, ap, eqb,
  if◌then◌else◌,
}
use parqdb.Text.Chars.{is_empty}
use parqdb.Text.Split.{extend}
use parqdb.Models.Registration.{Arrow}

abbrev pub named : List String → List (String × Unit {0})
named [] = []
named (s ∷ ss) = (s, tt) ∷ named ss

abbrev pub names : List (String × Unit {0}) → List String
names [] = []
names ((s, _) ∷ cs) = s ∷ names cs

pub named-names : (cs : List (String × Unit {0})) → named (names cs) ≡ cs
named-names [] = refl
named-names ((s, tt) ∷ cs) = ap (λ ds. (s, tt) ∷ ds) (named-names cs)

abbrev print_name : String → String → String
print_name String.[] rest = String.◌∷◌ "." rest
print_name (String.◌∷◌ c s) rest = String.◌∷◌ "x" (String.◌∷◌ c (print_name s rest))

abbrev pub print : List String → String
print [] = "#"
print (s ∷ ss) = print_name s (print ss)

abbrev add_name : Option (List String) → Option (List String)
add_name none = none
add_name (some ss) = some ("" ∷ ss)

abbrev add_character : Char → Option (List String) → Option (List String)
add_character c none = none
add_character c (some ss) = some (extend c ss)

-- Whether a character of a name comes next.
abbrev read_from : Bool → String → Option (List String)
read_from true String.[] = none
read_from true (String.◌∷◌ c s) = add_character c (read_from false s)
read_from false String.[] = none
read_from false (String.◌∷◌ c s) =
    let name = add_name (read_from false s) in
    let character = read_from true s in
    if eqb (code c) b'#' then some [] else if eqb (code c) b'.' then name else character

abbrev pub read : String → Option (List String)
read s = read_from false s

read-print_name :
    (s rest : String) (ss : List String)
    → read rest ≡ some ss
    → read (print_name s rest) ≡ some (s ∷ ss)
read-print_name String.[] rest ss h = rw h refl
read-print_name (String.◌∷◌ c s) rest ss h = rw (read-print_name s rest ss h) refl

pub read-print : (ss : List String) → read (print ss) ≡ some ss
read-print [] = refl
read-print (s ∷ ss) = read-print_name s (print ss) ss (read-print ss)

print_name_some : (s rest : String) → is_empty (print_name s rest) ≡ false
print_name_some String.[] rest = refl
print_name_some (String.◌∷◌ c s) rest = refl

pub print_some : (ss : List String) → is_empty (print ss) ≡ false
print_some [] = refl
print_some (s ∷ ss) = print_name_some s (print ss)

abbrev pub name_arrow : Arrow
name_arrow = record {
  Schema = List String;
  DataType = Unit {0};
  schema = names;
  fields = named;
  type_for_alias = λ name. some tt;
  serialize = print;
  read_schema = read;
  fields-schema = named-names;
  read_schema-serialize = read-print;
  serialize_some = print_some;
}
