-- ===== src/Status.antt =====
-- build.py and table.py: the state of an index build, and what is known of an index.
use parqdb.Prelude.{String, List, Option}
use parqdb.Python.Int.{ℤ}
use parqdb.Python.Float.{Float}

-- The literal type of `state` is checked where a status is made.
pub record IndexStatus : Type 0 where
  pub state : String
  pub progress : Option Float
  pub phase : Option String
  pub completed : Option ℤ
  pub total : Option ℤ
  pub current_snapshot_id : Option ℤ
  pub error : Option String
  pub error_code : Option String

pub record IndexInfo : Type 0 where
  pub name : String
  pub column : String
  pub family : String
  pub metric : String
  pub parameters : List (String × String)
  pub current_snapshot_id : ℤ
