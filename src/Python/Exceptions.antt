-- ===== src/Python/Exceptions.antt =====
-- The exception classes that the code raises or tells apart (Python's own, those of errors.py and
-- those of the native module), and the result of a call that may raise.
use parqdb.Prelude.{
  ℕ, String, ◌≡◌, refl, ◌||◌, Bool, true, false, List, [], ◌∷◌, any, eqb, if◌then◌else◌,
}

pub data ExceptionClass : Type 0 where
  exception runtime_error not_implemented_error type_error value_error : ExceptionClass
  json_decode_error unicode_decode_error key_error overflow_error : ExceptionClass
  os_error permission_error file_exists_error timeout_error http_error : ExceptionClass
  parqdb_error unsupported_operation_error service_unavailable_error : ExceptionClass
  stream_execution_error query_queue_full_error query_queue_timeout_error : ExceptionClass
  index_not_found_error already_exists_error build_already_running_error : ExceptionClass
  ambiguous_index_error invalid_schema_error invalid_metadata_error : ExceptionClass
  invalid_argument_error catalog_error storage_error backend_error : ExceptionClass

-- `type(error).__mro__`, without the class itself and without `object` and `BaseException`.
abbrev pub bases : ExceptionClass → List ExceptionClass
bases exception = []
bases runtime_error = exception ∷ []
bases not_implemented_error = runtime_error ∷ exception ∷ []
bases type_error = exception ∷ []
bases value_error = exception ∷ []
bases json_decode_error = value_error ∷ exception ∷ []
bases unicode_decode_error = value_error ∷ exception ∷ []
bases key_error = exception ∷ []
bases overflow_error = exception ∷ []
bases os_error = exception ∷ []
bases permission_error = os_error ∷ exception ∷ []
bases file_exists_error = os_error ∷ exception ∷ []
bases timeout_error = os_error ∷ exception ∷ []
bases http_error = exception ∷ []
bases parqdb_error = runtime_error ∷ exception ∷ []
bases _ = parqdb_error ∷ runtime_error ∷ exception ∷ []

abbrev number : ExceptionClass → ℕ
number exception = 0
number runtime_error = 1
number not_implemented_error = 2
number type_error = 3
number value_error = 4
number json_decode_error = 5
number unicode_decode_error = 6
number key_error = 7
number overflow_error = 8
number os_error = 9
number permission_error = 10
number file_exists_error = 11
number timeout_error = 12
number http_error = 13
number parqdb_error = 14
number unsupported_operation_error = 15
number service_unavailable_error = 16
number stream_execution_error = 17
number query_queue_full_error = 18
number query_queue_timeout_error = 19
number index_not_found_error = 20
number already_exists_error = 21
number build_already_running_error = 22
number ambiguous_index_error = 23
number invalid_schema_error = 24
number invalid_metadata_error = 25
number invalid_argument_error = 26
number catalog_error = 27
number storage_error = 28
number backend_error = 29

-- isinstance(error, c), by the class of `error`.
unfoldable pub is_instance : ExceptionClass → ExceptionClass → Bool
is_instance k c = eqb (number k) (number c) || any (λ b. eqb (number b) (number c)) (bases k)

pub record Exception : Type 0 where
  pub kind : ExceptionClass
  pub message : String

pub data Result {ℓ} (A : Type ℓ) : Type ℓ where
  ok : A → Result A
  err : Exception → Result A

-- raise ValueError(message), and so on.
module _ {ℓ} {A : Type ℓ} where
  abbrev pub raise : ExceptionClass → String → Result A
  raise k message = err (record { kind = k; message = message })

infixl 5 ◌>>=◌ ◌>>◌
abbrev pub ◌>>=◌ {κ ℓ} : {B : Type ℓ} {A : Type κ} → Result A → (A → Result B) → Result B
ok value >>= next = next value
err raised >>= next = err raised

abbrev pub ◌>>◌ {ℓ κ} : {A : Type κ} {B : Type ℓ} → Result A → Result B → Result B
first >> second = first >>= λ _. second

-- `if not condition: raise …`.
abbrev pub require : Bool → ExceptionClass → String → Result (Unit {0})
require true k message = ok tt
require false k message = raise k message

-- `try: … except c as error: raise …`.
abbrev pub convert {ℓ} :
    {A : Type ℓ} → (ExceptionClass → Bool) → (Exception → Exception) → Result A → Result A
convert test f (ok a) = ok a
convert test f (err e) = err (if test e.kind then f e else e)

-- A list comprehension whose element may raise.
abbrev pub map_result {ℓ κ} : {A : Type ℓ} {B : Type κ} → (A → Result B) → List A → Result (List B)
map_result f [] = ok []
map_result f (x ∷ xs) = do y ← f x; ys ← map_result f xs; ok (y ∷ ys)

pub >>=-eq-ok {ℓ κ} :
    {A : Type ℓ} {B : Type κ} {last : B} (first : Result A) (next : A → Result B)
    → (first >>= next) ≡ ok last
    → (value : A) × (first ≡ ok value) × (next value ≡ ok last)
>>=-eq-ok (ok value) next h = (value, refl, h)
>>=-eq-ok (err raised) next h = cc

pub map_result-cons {ℓ κ} :
    {A : Type ℓ} {B : Type κ} (f : A → Result B) (x : A) (xs : List A) {ys : List B}
    → map_result f (x ∷ xs) ≡ ok ys
    → (y : B) × (rest : List B) × (f x ≡ ok y) × (map_result f xs ≡ ok rest) × (ys ≡ y ∷ rest)
map_result-cons f x xs h =
    let (y, e, h') = >>=-eq-ok (f x) _ h in
    let (rest, e', h'') = >>=-eq-ok (map_result f xs) _ h' in (y, rest, e, e', cc)

pub ok_injective {ℓ} : {A : Type ℓ} {x y : A} → ok x ≡ ok y → x ≡ y
ok_injective h = cc

pub require-eq_ok : (b : Bool) (k : ExceptionClass) (m : String) → require b k m ≡ ok tt → b ≡ true
require-eq_ok true k m h = refl
require-eq_ok false k m h = cc
