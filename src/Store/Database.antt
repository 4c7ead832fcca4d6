-- ===== src/Store/Database.antt =====
-- A statement sent to PostgreSQL: what it does to the tables, and how the answer comes back.
use sentinel_flow_project.Base.{String, List}
use sentinel_flow_project.Base.Results.{Result, err}
use sentinel_flow_project.Incident.{Status}

-- The connection while one statement runs. `lost` is a statement that was executed and whose answer
-- did not arrive; `refused` is one that was not executed.
pub data Link : Type 0 where
  up : Link
  lost refused : String → Link

-- The errors of the store's methods.
pub data StoreError : Type 0 where
  invalid_incident : List String → StoreError
  encode_failed decode_failed : String → StoreError
  database : String → StoreError
  unique_violation : String → StoreError
  incident_not_found : StoreError
  invalid_transition : String → Status → StoreError

unfoldable pub exec :
    {S A : Type 0} → Link → (S → S × Result StoreError A) → S → S × Result StoreError A
exec up f s = f s
exec (lost e) f s = ((f s).0, err (database e))
exec (refused e) f s = (s, err (database e))
