-- ===== src/Base/Event.antt =====
-- `AuditLogger.record(event_type, details)`: what a component hands to the logger, in order.
use Prim.Native.Nat.{ℕ}
use mathlib.Core.Bool.{Bool}
use mathlib.Core.Option.{Option, none, some}
use mathlib.Core.List.{List, [], ◌∷◌, ◌++◌}
use agentsecure_community.Base.Text.{Text}
use agentsecure_community.Base.Dict.{Dict}

-- The values that the components put into `details`.
pub data Detail : Type 0 where
  text : Text → Detail
  texts : List Text → Detail
  number : ℕ → Detail
  flag : Bool → Detail
  null : Detail

pub record Event : Type 0 where
  pub event_type : Text
  pub details : Dict Text Detail

abbrev pub Log : Type 0
Log = List Event

unfoldable pub emit : Log → Text → Dict Text Detail → Log
emit log event_type details = log ++ (record { event_type = event_type; details = details } ∷ [])

abbrev pub optional_text : Option Text → Detail
optional_text none = null
optional_text (some t) = text t
