-- ===== src/Store/Incidents/Effects.antt =====
-- What the second half of a guarded update leaves alone.
use sentinel_flow_project.Base.{String, ◌≡◌, refl, Option, none, some}
use sentinel_flow_project.Base.Results.{Result, ok, err}
use sentinel_flow_project.Incident.{Details}
use sentinel_flow_project.Store.Database.{Link, StoreError}
use sentinel_flow_project.Store.Incidents.{Row, Table}
use sentinel_flow_project.Store.Incidents.Transitions.{after_update}

module _ (unmarshal : String → Option Details) where
  pub after_update-table :
      (link₂ : Link) (id : String) (x : Table × Result StoreError (Option Row))
      → (after_update unmarshal link₂ id x).0 ≡ x.0
  unfolding after_update
  after_update-table link₂ id (t', err e) = refl
  after_update-table link₂ id (t', ok none) = refl
  after_update-table link₂ id (t', ok (some r)) = refl
