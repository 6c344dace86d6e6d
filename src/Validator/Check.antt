-- ===== src/Validator/Check.antt =====
-- The results of internal/validator/validator.go.
use pacto_operator.Prelude.{Bool, List, ℤ}
use pacto_operator.Message.{Message}
use pacto_operator.Api.Conditions.{ConditionType, Reason, Severity}

pub record Check : Type 0 where
  pub name : ConditionType
  pub passed : Bool
  pub reason : Reason
  pub message : Message
  -- unset counts as an error
  pub severity : Severity

pub record PortsResult : Type 0 where
  pub expected : List ℤ
  pub observed : List ℤ
  pub missing : List ℤ
  pub unexpected : List ℤ

pub record Result : Type 0 where
  pub checks : List Check
  pub ports : PortsResult
