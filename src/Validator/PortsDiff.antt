-- ===== src/Validator/PortsDiff.antt =====
-- The comparison of ports in `checkPorts` is a difference of sets, both ways.
use pacto_operator.Prelude.{true, not, ◌&&◌, some, List, [], ◌∷◌, ℤ, int_eq, int32}
use pacto_operator.Prelude.{
  ◌≡◌, ◌↔◌, inl, inr, Option-cases, arith, elem, elem-select, select, is_empty, All,
}
use pacto_operator.Contract.{Interface}
use pacto_operator.Observer.{RuntimeSnapshot}
use pacto_operator.Validator.Ports.{contract_ports, check_ports}

-- For every list of interfaces, snapshot and port: the port is listed as missing when it is declared
-- and not observed, and as unexpected when it is observed and not declared.
pub check_ports_difference :
    (is : List Interface) (snap : RuntimeSnapshot) (p : ℤ)
    → let ports = (check_ports is snap).1 in
      (elem p ports.missing ≡ (elem p (contract_ports is) && not (elem p snap.service_ports)))
      × (elem p ports.unexpected ≡ (elem p snap.service_ports && not (elem p (contract_ports is))))
unfolding check_ports
check_ports_difference is snap p = (
  elem-select (λ q. not (elem q snap.service_ports)) p (contract_ports is),
  elem-select (λ q. not (elem q (contract_ports is))) p snap.service_ports,
)

-- Each interface that declares a port has it, as an int32, among the observed ones.
abbrev pub AllPresent : List ℤ → List Interface → Type 0
AllPresent observed = All (λ i. (q : ℤ) → i.port ≡ some q → elem (int32 q) observed ≡ true)

missing_none_iff :
    (observed : List ℤ) (is : List Interface)
    → (is_empty (select (λ p. not (elem p observed)) (contract_ports is)) ≡ true)
      ↔ AllPresent observed is
unfolding contract_ports select
missing_none_iff observed [] = ground arith
missing_none_iff observed (i ∷ is) =
    let ih = missing_none_iff observed is in
    elim (Option-cases i.port) [
      | inl e ↦ rw e (λ h. (λ q p. ground arith, ih.0 h), λ h. ih.1 h.1)
      | inr (q, e) ↦
          rw e (λ h. (λ r p. ground arith, ih.0 (ground arith)), λ h. ground (arith, h.0 q, ih))
    ]

-- For any interfaces and snapshot, the ports check passes exactly when every declared port, as an int32, is on the Service.
pub check_ports-passed :
    (is : List Interface) (snap : RuntimeSnapshot)
    → ((check_ports is snap).0.passed ≡ true) ↔ AllPresent snap.service_ports is
unfolding check_ports
check_ports-passed is snap = ground (arith, missing_none_iff snap.service_ports is)
