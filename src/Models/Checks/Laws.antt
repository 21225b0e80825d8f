-- ===== src/Models/Checks/Laws.antt =====
-- What the checks accept, and what an accepted value is.
use parqdb.Prelude.{
  String, true, false, IfSome, List, [], ◌∷◌, Option, some, none, ◌≡◌, refl, map, arith, All, any,
  Bool-cases, inl, inr,
}
use parqdb.Python.Exceptions.{Result, ok, map_result, map_result-cons, ok_injective}
use parqdb.Python.Int.{ℤ, is_positive, is_non_negative}
use parqdb.Python.Float.{Float, is_finite}
use parqdb.Python.Value.{
  of_option, of_strings, of_items, items, items-of_items, Value, null, int, float, str, arr,
}
use parqdb.Text.Chars.{is_empty}
use parqdb.Models.Checks.{
  string, optional_string, positive_integer, non_negative_integer, optional_positive_integer,
  optional_non_negative_integer, finite, optional_number, strings, sort_fields, portable_sort_order,
}

abbrev pub NonEmpty : String → Type 0
NonEmpty s = is_empty s ≡ false

pub any-is_empty : (ss : List String) → All NonEmpty ss → any is_empty ss ≡ false
any-is_empty [] h = refl
any-is_empty (s ∷ ss) (p, ps) = rw (p, any-is_empty ss ps) refl

pub string-str : (s name : String) → NonEmpty s → string (str s) name ≡ ok s
unfolding string
string-str s name h = rw h refl

pub string-eq_ok : (v : Value) (name s : String) → string v name ≡ ok s → NonEmpty s × (v ≡ str s)
unfolding string
string-eq_ok (str t) name s h = ground arith
string-eq_ok null name s h = cc
string-eq_ok _ name s h = cc

pub optional_string-of_option :
    (o : Option String) (name : String)
    → IfSome NonEmpty o
    → optional_string (of_option str o) name ≡ ok o
unfolding optional_string
optional_string-of_option none name h = refl
optional_string-of_option (some s) name h = rw h refl

pub optional_string-eq_ok :
    (v : Value) (name : String) (o : Option String)
    → optional_string v name ≡ ok o
    → IfSome NonEmpty o × (v ≡ of_option str o)
unfolding optional_string
optional_string-eq_ok (str t) name o h = ground arith
optional_string-eq_ok null name o h = ground arith
optional_string-eq_ok _ name o h = cc

pub positive_integer-int :
    (n : ℤ) (name : String) → is_positive n ≡ true → positive_integer (int n) name ≡ ok n
unfolding positive_integer
positive_integer-int n name h = rw h refl

pub positive_integer-eq_ok :
    (v : Value) (name : String) (n : ℤ)
    → positive_integer v name ≡ ok n
    → (is_positive n ≡ true) × (v ≡ int n)
unfolding positive_integer
positive_integer-eq_ok (int m) name n h = elim (Bool-cases (is_positive m)) [
  | inl p ↦ ground arith
  | inr p ↦ ground arith
]
positive_integer-eq_ok null name n h = cc
positive_integer-eq_ok _ name n h = cc

pub optional_positive_integer-of_option :
    (o : Option ℤ) (name : String)
    → IfSome (λ n. is_positive n ≡ true) o
    → optional_positive_integer (of_option int o) name ≡ ok o
unfolding optional_positive_integer
optional_positive_integer-of_option none name h = refl
optional_positive_integer-of_option (some n) name h = rw h refl

pub optional_positive_integer-eq_ok :
    (v : Value) (name : String) (o : Option ℤ)
    → optional_positive_integer v name ≡ ok o
    → IfSome (λ n. is_positive n ≡ true) o × (v ≡ of_option int o)
unfolding optional_positive_integer
optional_positive_integer-eq_ok (int m) name o h = elim (Bool-cases (is_positive m)) [
  | inl p ↦ ground arith
  | inr p ↦ ground arith
]
optional_positive_integer-eq_ok null name o h = ground arith
optional_positive_integer-eq_ok _ name o h = cc

pub non_negative_integer-int :
    (n : ℤ) (name : String) → is_non_negative n ≡ true → non_negative_integer (int n) name ≡ ok n
unfolding non_negative_integer
non_negative_integer-int n name h = rw h refl

pub optional_non_negative_integer-of_option :
    (o : Option ℤ) (name : String)
    → IfSome (λ n. is_non_negative n ≡ true) o
    → optional_non_negative_integer (of_option int o) name ≡ ok o
unfolding optional_non_negative_integer
optional_non_negative_integer-of_option none name h = refl
optional_non_negative_integer-of_option (some n) name h = rw h refl

pub finite-float :
    (x : Float) (message : String) → is_finite x ≡ true → finite (float x) message ≡ ok x
unfolding finite
finite-float x message h = rw h refl

-- Whatever number was given, an accepted one is a finite float.
pub finite-eq_ok :
    (v : Value) (message : String) (x : Float) → finite v message ≡ ok x → is_finite x ≡ true
unfolding finite
finite-eq_ok (int n) message x h = ground arith
finite-eq_ok (float y) message x h = ground arith
finite-eq_ok null message x h = cc
finite-eq_ok _ message x h = cc

pub optional_number-of_option :
    (o : Option Float) (name : String)
    → IfSome (λ x. is_finite x ≡ true) o
    → optional_number (of_option float o) name ≡ ok o
unfolding optional_number
optional_number-of_option none name h = refl
optional_number-of_option (some x) name h = rw h refl

module _ {ℓ κ} {A : Type ℓ} {B : Type κ} where
  -- Where each element is accepted, so is the list; and the other way round.
  pub map_result-map {μ} :
      {C : Type μ} (f : A → Result B) (g : C → A) (e : C → B) (P : C → Type κ)
      → ((c : C) → P c → f (g c) ≡ ok (e c))
      → (cs : List C) → All P cs
      → map_result f (map g cs) ≡ ok (map e cs)
  map_result-map f g e P each [] h = refl
  map_result-map f g e P each (c ∷ cs) (p, ps) =
      rw (each c p, map_result-map f g e P each cs ps) refl

  pub map_result-All {μ} :
      (f : A → Result B) (P : B → Type μ)
      → ((a : A) (b : B) → f a ≡ ok b → P b)
      → (xs : List A) (ys : List B) → map_result f xs ≡ ok ys
      → All P ys
  map_result-All f P each [] [] h = tt
  map_result-All f P each [] (y ∷ ys) h = cc
  map_result-All f P each (x ∷ xs) ys h =
      let (y, rest, e, e', same) = map_result-cons f x xs h in
      rw same (each x y e, map_result-All f P each xs rest e')

pub strings-map :
    (ss : List String) (name : String) → All NonEmpty ss → strings (map str ss) name ≡ ok ss
unfolding strings
strings-map [] name h = refl
strings-map (s ∷ ss) name (p, ps) = rw (p, strings-map ss name ps) refl

pub strings-All :
    (vs : List Value) (name : String) (ss : List String) → strings vs name ≡ ok ss → All NonEmpty ss
unfolding strings
strings-All vs name ss h =
    map_result-All (λ v. string v name) NonEmpty (λ v s e. (string-eq_ok v name s e).0) vs ss h

sort_fields-of_strings : (ss : List String) → All NonEmpty ss → sort_fields (of_strings ss) ≡ ok ss
unfolding sort_fields
sort_fields-of_strings ss h = rw (items-of_items (map str ss)) (strings-map ss "sort field" h)

map_result-sort_fields :
    (os : List (List String))
    → All (All NonEmpty) os
    → map_result sort_fields (map of_strings os) ≡ ok os
map_result-sort_fields [] h = refl
map_result-sort_fields (o ∷ os) (h, hs) =
    rw (sort_fields-of_strings o h, map_result-sort_fields os hs) refl

-- Sort orders of non-empty field names are accepted as they are.
pub portable_sort_order-of_strings :
    (os : List (List String))
    → All (All NonEmpty) os
    → portable_sort_order (arr (of_items (map of_strings os))) ≡ ok os
unfolding portable_sort_order
portable_sort_order-of_strings os h =
    rw (items-of_items (map of_strings os)) (map_result-sort_fields os h)

sort_fields-All : (v : Value) (ss : List String) → sort_fields v ≡ ok ss → All NonEmpty ss
unfolding sort_fields
sort_fields-All (arr order) ss h = strings-All (items order) "sort field" ss h
sort_fields-All null ss h = cc
sort_fields-All _ ss h = cc

pub portable_sort_order-All :
    (v : Value) (os : List (List String)) → portable_sort_order v ≡ ok os → All (All NonEmpty) os
unfolding portable_sort_order
portable_sort_order-All null os h = rw (← ok_injective h) tt
portable_sort_order-All (arr orders) os h =
    map_result-All sort_fields (All NonEmpty) sort_fields-All (items orders) os h
portable_sort_order-All _ os h = cc
