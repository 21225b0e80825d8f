-- ===== src/Python/Value.antt =====
-- Dynamically typed values: what `json.loads` returns, and what a caller may pass.
use parqdb.Prelude.{
  map, String, ◌≡◌, refl, ap, Bool, List, [], ◌∷◌, Option, none, some, ◌==◌, if◌then◌else◌,
}
use parqdb.Python.Int.{ℤ}
use parqdb.Python.Float.{Float}

-- A dict here has text keys, each once.
mutual
  pub data Value : Type 0 where
    null : Value
    bool : Bool → Value
    int : ℤ → Value
    float : Float → Value
    str : String → Value
    obj : Fields → Value
    arr : Items → Value

  pub data Fields : Type 0 where
    end : Fields
    field : String → Value → Fields → Fields

  pub data Items : Type 0 where
    nil : Items
    cons : Value → Items → Items

abbrev pub items : Items → List Value
items nil = []
items (cons x xs) = x ∷ items xs

abbrev pub of_items : List Value → Items
of_items [] = nil
of_items (x ∷ xs) = cons x (of_items xs)

abbrev pub entries : Fields → List (String × Value)
entries end = []
entries (field k v fs) = (k, v) ∷ entries fs

abbrev pub of_entries : List (String × Value) → Fields
of_entries [] = end
of_entries ((k, v) ∷ fs) = field k v (of_entries fs)

-- d.get(key); `none` where the key is missing.
abbrev pub find : String → Fields → Option Value
find key end = none
find key (field k v fs) = if k == key then some v else find key fs

-- d.get(key), with Python's None for a missing key, and d.get(key, default).
abbrev pub get_or : Fields → String → Value → Value
get_or fs key default = elim (find key fs) [ none ↦ default | some v ↦ v ]

abbrev pub get : Fields → String → Value
get fs key = get_or fs key null

abbrev pub keys : Fields → List String
keys end = []
keys (field k v fs) = k ∷ keys fs

pub items-of_items : (xs : List Value) → items (of_items xs) ≡ xs
items-of_items [] = refl
items-of_items (x ∷ xs) = ap (λ ys. x ∷ ys) (items-of_items xs)

-- A value for what is optional.
abbrev pub of_option {ℓ} : {A : Type ℓ} → (A → Value) → Option A → Value
of_option f none = null
of_option f (some a) = f a

abbrev pub of_strings : List String → Value
of_strings ss = arr (of_items (map str ss))
