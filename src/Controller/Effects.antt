-- ===== src/Controller/Effects.antt =====
-- What the controller writes besides the cluster: events on the Pacto, and metric samples.
use pacto_operator.Prelude.{List, map}
use pacto_operator.Message.{Message}
use pacto_operator.Api.Conditions.{EventReason}
use pacto_operator.Metrics.{Sample}

pub data EventType : Type 0 where
  normal warning : EventType

pub data Effect : Type 0 where
  event : EventType → EventReason → Message → Effect
  sample : Sample → Effect

abbrev pub samples : List Sample → List Effect
samples = map sample
