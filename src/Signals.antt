-- ===== src/Signals.antt =====
-- internal/signals/types.go: the signals from outside and their payloads.
use forge_mini.Base.{String, str_eq, if◌then◌else◌, ◌≡◌, arith, eq_iff}
use forge_mini.Base.Dict.{Dict}
use forge_mini.Base.Machine.{Int64, Time}
use forge_mini.Base.Errors.{Result}

-- `SignalType`; `other` is a text that is none of the constants.
pub data SignalType : Type 0 where
  unit_admitted station_entered assembly_completed test_started test_passed test_failed : SignalType
  heartbeat_received quality_disposition rework_started rework_completed : SignalType
  inspection_completed operator_override : SignalType
  other : String → SignalType

-- `string(signal.Type)`
unfoldable pub signal_text : SignalType → String
signal_text unit_admitted = "unit.admitted"
signal_text station_entered = "station.entered"
signal_text assembly_completed = "assembly.completed"
signal_text test_started = "test.started"
signal_text test_passed = "test.passed"
signal_text test_failed = "test.failed"
signal_text heartbeat_received = "station.heartbeat"
signal_text quality_disposition = "quality.disposition"
signal_text rework_started = "rework.started"
signal_text rework_completed = "rework.completed"
signal_text inspection_completed = "inspection.completed"
signal_text operator_override = "operator.override"
signal_text (other s) = s

-- The signal type that a text stands for in the `switch` of the engine.
unfoldable pub signal_of_text : String → SignalType
signal_of_text s =
    if str_eq s "unit.admitted"
    then unit_admitted
    else if str_eq s "station.entered"
    then station_entered
    else if str_eq s "assembly.completed"
    then assembly_completed
    else if str_eq s "test.started"
    then test_started
    else if str_eq s "test.passed"
    then test_passed
    else if str_eq s "test.failed"
    then test_failed
    else if str_eq s "station.heartbeat"
    then heartbeat_received
    else if str_eq s "quality.disposition"
    then quality_disposition
    else if str_eq s "rework.started"
    then rework_started
    else if str_eq s "rework.completed"
    then rework_completed
    else if str_eq s "inspection.completed"
    then inspection_completed
    else if str_eq s "operator.override"
    then operator_override
    else other s

-- `OperationalSignal`; the payload is the JSON text, empty where there is none.
pub record OperationalSignal : Type 0 where
  pub id : String
  pub type : SignalType
  pub unit_id : String
  pub source : String
  pub station_id : String
  pub correlation_id : String
  pub sequence : Int64
  pub occurred_at : Time
  pub received_at : Time
  pub payload : String

-- `TestFailedPayload`; a measurement, a float64 that no code reads, is kept as its JSON text.
pub record TestFailedPayload : Type 0 where
  pub failure_code : String
  pub failure_class : String
  pub message : String
  pub measurement_summary : Dict String

-- `QualityDispositionPayload`
pub record QualityDispositionPayload : Type 0 where
  pub action : String
  pub reason : String
  pub actor : String

-- `OperatorOverridePayload`
pub record OperatorOverridePayload : Type 0 where
  pub action : String
  pub actor : String
  pub reason : String

-- The calls of encoding/json that the program makes: `json.Unmarshal` into the two payloads, and
-- `json.Marshal` of them.
pub record Codec : Type 0 where
  pub unmarshal_test_failed : String → Result TestFailedPayload
  pub unmarshal_quality_disposition : String → Result QualityDispositionPayload
  pub marshal_test_failed : TestFailedPayload → Result String
  pub marshal_quality_disposition : QualityDispositionPayload → Result String

-- Every text is the text of the signal type that it stands for, so the data type loses nothing of it.
pub signal_text-signal_of_text : (s : String) → signal_text (signal_of_text s) ≡ s
unfolding signal_text signal_of_text
signal_text-signal_of_text s = ground (
  arith,
  eq_iff s "unit.admitted",
  eq_iff s "station.entered",
  eq_iff s "assembly.completed",
  eq_iff s "test.started",
  eq_iff s "test.passed",
  eq_iff s "test.failed",
  eq_iff s "station.heartbeat",
  eq_iff s "quality.disposition",
  eq_iff s "rework.started",
  eq_iff s "rework.completed",
  eq_iff s "inspection.completed",
  eq_iff s "operator.override",
)
