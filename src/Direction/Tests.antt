-- ===== src/Direction/Tests.antt =====
-- Instances of the theorems on flow directions.
use dexpi_datalog.Prelude.{◌≡◌, refl, [], ◌∷◌, some}
use dexpi_datalog.Topology.Facts
use dexpi_datalog.Prelude.Text.{occurs}
use dexpi_datalog.Direction.{classify_path_direction_basis, detect_directed_intent}
use dexpi_datalog.Direction.Agree.{basis_name, classify_path_direction_basis_agrees}

classify_path_direction_basis_agrees_example :
    classify_path_direction_basis ("sourceItem" ∷ "nodes" ∷ [])
    ≡ basis_name (Facts.classify_path_direction_basis ("sourceItem" ∷ "nodes" ∷ []))
classify_path_direction_basis_agrees_example =
    classify_path_direction_basis_agrees ("sourceItem" ∷ "nodes" ∷ [])

-- `feeds from` contains the downstream token `feeds`, and the upstream tokens are tried first
detect_runs :
    (detect_directed_intent (λ s. s) "what feeds from here" ≡ some "upstream")
    × (detect_directed_intent (λ s. s) "what feeds it" ≡ some "downstream")
unfolding detect_directed_intent occurs
detect_runs = (refl, refl)
