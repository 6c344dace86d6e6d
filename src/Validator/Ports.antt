-- ===== src/Validator/Ports.antt =====
-- `contractPorts` and `checkPorts` of internal/validator/validator.go. The two maps of ports are
-- read only by key, so each is its list with the test `elem`.
use pacto_operator.Prelude.{true, false, not, none, some, List, [], ◌∷◌, ℤ, int_eq, int32}
use pacto_operator.Prelude.{elem, select, is_empty, if◌then◌else◌}
use pacto_operator.Message.{text, sprintf, ints, done}
use pacto_operator.Contract.{Interface}
use pacto_operator.Api.Conditions.{ports_valid, ports_match, missing_ports, Severity}
use pacto_operator.Observer.{RuntimeSnapshot}
use pacto_operator.Validator.Check.{Check, PortsResult}
use pacto_operator.Validator.RuntimeChecks.{report}

-- The declared ports, in the order of the interfaces.
unfoldable pub contract_ports : List Interface → List ℤ
unfolding int32
contract_ports [] = []
contract_ports (i ∷ is) =
    let rest = contract_ports is in elim i.port [ none ↦ rest | some p ↦ int32 p ∷ rest ]

unfoldable pub compare_ports : List ℤ → List ℤ → PortsResult
compare_ports expected observed = record {
  expected = expected;
  observed = observed;
  missing = select (λ p. not (elem p observed)) expected;
  unexpected = select (λ p. not (elem p expected)) observed;
}

unfoldable pub ports_check : PortsResult → Check
ports_check ports =
    if is_empty ports.missing
    then report ports_valid true ports_match (text "All declared ports are present on the Service")
        Severity.unset
    else report ports_valid false missing_ports
        (sprintf "Missing ports: %v" (ints ports.missing done)) Severity.unset

unfoldable pub check_ports : List Interface → RuntimeSnapshot → Check × PortsResult
unfolding contract_ports compare_ports ports_check
check_ports interfaces snap =
    let ports = compare_ports (contract_ports interfaces) snap.service_ports in
    (ports_check ports, ports)
