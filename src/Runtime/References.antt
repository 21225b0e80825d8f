-- ===== src/Runtime/References.antt =====
-- _table_reference of runtime/service.py: when the text of an identifier tells which it is.
use parqdb.Prelude.{String, false, List, [], ◌∷◌, ◌++◌, All, ◌≡◌, refl, ap, sym, ◌∙◌}
use parqdb.Text.Chars.{contains}
use parqdb.Text.Split.{split, split-join}
use parqdb.Identifier.{TableIdentifier, index_namespace}
use parqdb.Runtime.{identifier_reference}

-- That no part of the identifier holds a full stop.
abbrev pub HasNoDot : TableIdentifier → Type 0
HasNoDot t = All (λ part. contains "." part ≡ false) (index_namespace t)

split-identifier_reference :
    (t : TableIdentifier) → HasNoDot t → split "." (identifier_reference t) ≡ index_namespace t
unfolding identifier_reference index_namespace
split-identifier_reference t h = split-join "." t.catalog (t.namespace ++ t.name ∷ []) h

-- The last part, and those before it.
unsnoc : String → List String → List String × String
unsnoc x [] = ([], x)
unsnoc x (y ∷ ys) = let (before, last) = unsnoc y ys in (x ∷ before, last)

unsnoc-append : (x : String) (xs : List String) (z : String) → unsnoc x (xs ++ z ∷ []) ≡ (x ∷ xs, z)
unfolding unsnoc
unsnoc-append x [] z = refl
unsnoc-append x (y ∷ ys) z = rw (unsnoc-append y ys z) refl

-- The identifier of its parts.
of_parts : List String → TableIdentifier
unfolding unsnoc
of_parts [] = record { catalog = ""; namespace = []; name = "" }
of_parts (catalog ∷ []) = record { catalog = catalog; namespace = []; name = "" }
of_parts (catalog ∷ x ∷ xs) = record {
  catalog = catalog;
  namespace = (unsnoc x xs).0;
  name = (unsnoc x xs).1;
}

of_parts-index_namespace : (t : TableIdentifier) → of_parts (index_namespace t) ≡ t
unfolding of_parts index_namespace
of_parts-index_namespace t = from_namespace t.namespace
  where
    from_namespace :
        (ns : List String)
        → of_parts (t.catalog ∷ (ns ++ t.name ∷ [])) ≡ record t { namespace = ns }
    from_namespace [] = refl
    from_namespace (x ∷ xs) = rw (unsnoc-append x xs t.name) refl

-- Two table identifiers without a full stop in any of their parts that have the same reference
-- are the same.
pub identifier_reference-injective :
    (t u : TableIdentifier)
    → HasNoDot t
    → HasNoDot u
    → identifier_reference t ≡ identifier_reference u
    → t ≡ u
identifier_reference-injective t u h k e =
    sym (of_parts-index_namespace t)
    ∙ ap of_parts
        (sym (split-identifier_reference t h) ∙ ap (split ".") e ∙ split-identifier_reference u k)
    ∙ of_parts-index_namespace u
