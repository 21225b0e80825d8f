-- ===== src/Query.antt =====
-- query.py: the immutable vector query and its builder methods.
use parqdb.Prelude.{String, Bool, true, List, Option, some, if◌then◌else◌}
use parqdb.Python.Exceptions.{Result, ok, raise, value_error, type_error}
use parqdb.Python.Int.{ℤ, is_positive}
use parqdb.Python.Float.{Float}
use parqdb.Python.Value.{Value, int, str}
use parqdb.Text.Chars.{is_empty}
use parqdb.Text.Decimal.{strip}
use parqdb.Identifier.{TableIdentifier}

pub record VectorQuery : Type 0 where
  pub source : TableIdentifier
  pub query : List Float
  pub column : Option String
  pub index : Option String
  pub projection : Option (List String)
  pub result_limit : ℤ
  pub probe_count : Option ℤ
  pub predicate : Option String
  pub bypass_index : Bool

unfoldable pub select : VectorQuery → List String → VectorQuery
select q columns = record q { projection = some columns }

unfoldable pub limit : VectorQuery → Value → Result VectorQuery
limit q (int n) =
    if is_positive n
    then ok (record q { result_limit = n })
    else raise value_error "limit must be a positive integer"
limit q _ = raise value_error "limit must be a positive integer"

unfoldable pub nprobes : VectorQuery → Value → Result VectorQuery
nprobes q (int n) =
    if is_positive n
    then ok (record q { probe_count = some n })
    else raise value_error "nprobes must be a positive integer"
nprobes q _ = raise value_error "nprobes must be a positive integer"

unfoldable pub where_ : VectorQuery → Value → Result VectorQuery
where_ q (str predicate) =
    if is_empty (strip predicate)
    then raise value_error "predicate must not be empty"
    else ok (record q { predicate = some predicate })
where_ q _ = raise type_error "predicate must be a string"

unfoldable pub bypass_vector_index : VectorQuery → VectorQuery
bypass_vector_index q = record q { bypass_index = true }
