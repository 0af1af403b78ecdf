-- ===== src/Telemetry.antt =====
-- services/telemetry_registry.py: the telemetry types that are supported, and their fields. Sets are lists
-- without repetition.
use aicti.Base.{
  String, ◌==◌, Bool, true, false, not, Option, none, some, List, [], ◌∷◌, elem, keep, sorted_texts,
  if◌then◌else◌,
}

pub record TelemetryRegistryEntry : Type 0 where
  pub telemetry_type : String
  pub allowed_fields : List String

abbrev pub process_creation_allowed_fields : List String
process_creation_allowed_fields =
    "CommandLine" ∷ "Image" ∷ "ParentImage" ∷ "ParentCommandLine" ∷ "User" ∷ "CurrentDirectory"
    ∷ "ProcessId" ∷ "ParentProcessId" ∷ "IntegrityLevel" ∷ "LogonGuid" ∷ "LogonId" ∷ "Hashes"
    ∷ "OriginalFileName" ∷ "Company" ∷ "Product" ∷ "Description" ∷ []

abbrev pub file_event_allowed_fields : List String
file_event_allowed_fields =
    "TargetFilename" ∷ "Image" ∷ "User" ∷ "ProcessGuid" ∷ "ProcessId" ∷ "CommandLine" ∷ "Hashes"
    ∷ []

abbrev pub network_connection_allowed_fields : List String
network_connection_allowed_fields =
    "Image" ∷ "User" ∷ "Protocol" ∷ "SourceIp" ∷ "SourcePort" ∷ "DestinationIp" ∷ "DestinationPort"
    ∷ []

-- `TELEMETRY_REGISTRY.get(telemetry_type)`
unfoldable pub registry_get : String → Option TelemetryRegistryEntry
registry_get telemetry_type =
    if telemetry_type == "process_creation"
    then some (record {
      telemetry_type = "process_creation";
      allowed_fields = process_creation_allowed_fields;
    })
    else if telemetry_type == "file_event"
    then some (record { telemetry_type = "file_event"; allowed_fields = file_event_allowed_fields })
    else if telemetry_type == "network_connection"
    then some (record {
      telemetry_type = "network_connection";
      allowed_fields = network_connection_allowed_fields;
    })
    else none

unfoldable pub is_supported_telemetry_type : String → Bool
is_supported_telemetry_type telemetry_type = elim (registry_get telemetry_type) [
  | none ↦ false
  | some entry ↦ true
]

unfoldable pub validate_required_fields : String → List String → List String
validate_required_fields telemetry_type required_fields = elim (registry_get telemetry_type) [
  | none ↦ required_fields
  | some entry ↦ keep (λ f. not (elem ◌==◌ f entry.allowed_fields)) required_fields
]

-- It raises where it is `none`.
unfoldable pub fields_for_source : String → Option (List String)
fields_for_source source_id = elim (registry_get source_id) [
  | none ↦ none
  | some entry ↦ some (sorted_texts entry.allowed_fields)
]

unfoldable pub field_exists : String → String → Bool
field_exists source_id field_name = elim (registry_get source_id) [
  | none ↦ false
  | some entry ↦ elem ◌==◌ field_name entry.allowed_fields
]
