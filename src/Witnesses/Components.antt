-- ===== src/Witnesses/Components.antt =====
-- Instances of the theorems on the memory, the compiler, both validations, refinement and chunking.
use aicti.Base.{
  leb, elem, ◌==◌, ◌&&◌, strip, String, concat, contains, ◌≡◌, refl, true, ◌||◌, Option, none, some,
  List, [], ◌∷◌, keep, ok, err, arith, if◌then◌else◌, ◌+◌, is_space, split_once, text_length,
  sorted_texts,
}
use aicti.Value.{Value, Fields, end, field, get, is_text, is_finite}
use aicti.Library.{Library}
use aicti.Hashing.{snapshot_hash}
use aicti.Db.{Db, ProofObligationRecord, empty}
use aicti.Sigma.{
  all_of, FieldConditionNode, DetectionAst, compile, to_yaml, dump_rule, dump_logsource,
}
use aicti.Sigma.Matching.{rule_matches}
use aicti.Sigma.Matching.Meaning.{meaning}
use aicti.Sigma.Matching.Compiled.{rule_matches-compile}
use aicti.Memory.{
  operational_error, checked_hash, replay, replay_events, in_order, insert_event, check_event,
  check_views, check_view, expected_prev, lookup, put, recomputed, required, get_or_null, is_prev,
  prev_value, hash_payload, latest_of,
}
use aicti.Memory.Order.{of_scope}
use aicti.Memory.Chain.{Consistent, InStep}
use aicti.Memory.Service.{
  MemoryWrite, can_access, write, append_event, event_payload, event_hash_of, view_payload,
  upsert_view, put_view, hashed_payload, scope_of, is_version, current_state,
}
use aicti.Memory.Writes.{write-append_event, write-Consistent}
use aicti.Memory.Appends.{event_of}
use aicti.Memory.Sessions.{after_writes, replay-after_writes}
use aicti.Memory.Intact.{Hashed, AtView, replayed, replay-Hashed}
use aicti.Refinement.{count_for_detection_spec, count_for_rule}
use aicti.Refinement.Limits.{
  Attempt, query, rule, dynamic, attempts, number, spec_of, rule_of, min, attempts-count,
}
use aicti.Chunking.{TextChunk, chunk_text}
use aicti.Chunking.Pieces.{joined, Covers, chunk_text-Covers}
use aicti.StaticValidation.{validate_rule, has_spec, full}
use aicti.StaticValidation.Compiled.{validate_rule-to_yaml}
use aicti.Witnesses.Samples.{uuid4, ready}
use aicti.AgentAudit.{AgentRunInput}
use aicti.Review.{record_decision, is_human}
use aicti.Review.Handoff.{assert_can_export, proof_gate_failed}
use aicti.Review.Handoff.Recorded.{is_ready, record_decision-assert_can_export}
use aicti.Memory.Policy.{available_namespaces, require_memory_contract, contract_of}
use aicti.Memory.Policy.Contract.{write-require_memory_contract}

abbrev pub str_of : Value → String
str_of (Value.text s) = s
str_of _ = "?"

abbrev pub sample_library : Library
sample_library = record {
  lower = λ s. s;
  is_decimal = λ c. leb 48 c && leb c 57;
  str = str_of;
  dumps = λ v. "payload";
  sha256 = λ s. concat "hash of " s;
  safe_load = λ s. none;
  safe_dump = λ v. "selection_a: Image|contains";
}

abbrev image : FieldConditionNode
image = record {
  id = "a";
  field_name = "Image";
  operator = "contains";
  values = "cmd" ∷ [];
  evidence_ids = "e" ∷ [];
}

abbrev user : FieldConditionNode
user = record {
  id = "b";
  field_name = "User";
  operator = "contains";
  values = "bob" ∷ [];
  evidence_ids = "e" ∷ [];
}

abbrev sample_ast : DetectionAst
sample_ast = record {
  id = "ast";
  detection_spec_id = "s";
  root = record { id = "root"; operator = all_of; children = image ∷ user ∷ [] };
  telemetry_source_id = "process_creation";
  attack_techniques = [];
}

abbrev event : Fields
event = field "Image" (Value.text "cmd.exe") (field "User" (Value.text "bob") end)

rule_matches-compile_example :
    rule_matches sample_library
      (compile sample_library sample_ast "title" "text" [] "high").detection
      event
    ≡ ok (meaning sample_library event sample_ast.root)
unfolding is_space split_once
rule_matches-compile_example =
    rule_matches-compile sample_library (λ s. refl) sample_ast "title" "text" [] "high" event refl

abbrev memory_write : MemoryWrite
memory_write = record {
  run_id = "run";
  namespace = "notes";
  role = "evidence_agent";
  stage = "evidence";
  operation = "write";
  payload = end;
  expected_version = 0;
}

abbrev indexed : Db
indexed = record empty { views_are_unique = true }

write-append_event_example :
    let (r, db') =
      write sample_library (λ v. some v) (λ a b c d e. true) uuid4 memory_write empty in
    (r ≡ err operational_error)
    × (db'.memory_events ≡ event_of sample_library uuid4 memory_write empty none 0 ∷ [])
    × (db'.memory_views ≡ [])
    × (¬ InStep sample_library "run:notes" db')
unfolding scope_of hashed_payload hash_payload prev_value is_finite
write-append_event_example =
    write-append_event sample_library (λ v. some v) (λ s. refl) (λ n. refl) (λ a b c d e. true)
      uuid4 memory_write empty refl none 0 (refl, refl) (refl, refl) refl refl refl

write-Consistent_example :
    Consistent sample_library
      (write sample_library (λ v. some v) can_access uuid4 memory_write indexed).1
write-Consistent_example =
    write-Consistent sample_library (λ v. some v) (λ s. refl) (λ n. refl) can_access uuid4
      memory_write indexed refl (λ s. (none, 0, (refl, refl), (refl, refl)))

replay-after_writes_example :
    (scopes : List String) × (replay sample_library
        (λ scope pattern. true)
        "run"
        (after_writes sample_library
          (λ v. some v)
          can_access
          uuid4
          (memory_write ∷ memory_write ∷ [])
          indexed)
      ≡ ok scopes)
replay-after_writes_example =
    replay-after_writes sample_library (λ v. some v) (λ s. refl) (λ n. refl) can_access uuid4
      (memory_write ∷ memory_write ∷ []) (λ scope pattern. true) "run" indexed refl refl refl

abbrev remembered : Db
remembered = (write sample_library (λ v. some v) (λ a b c d e. true) uuid4 memory_write indexed).1

remembered-replay :
    replay sample_library (λ scope pattern. true) "run" remembered ≡ ok ("run:notes" ∷ [])
unfolding write append_event current_state is_version scope_of event_payload event_hash_of
    view_payload upsert_view put_view checked_hash hashed_payload is_finite replay in_order
    insert_event replay_events check_event check_views check_view expected_prev lookup put
    recomputed required get_or_null is_prev prev_value hash_payload latest_of snapshot_hash get
    is_text sorted_texts
remembered-replay = refl

replay-Hashed_example :
    (q : Option String) × Hashed sample_library none
      (keep (of_scope "run:notes") (replayed (λ scope pattern. true) "run" remembered))
      q
    × AtView remembered.memory_views "run:notes" q
replay-Hashed_example =
    replay-Hashed sample_library (λ s. refl) (λ scope pattern. true) "run" remembered
      ("run:notes" ∷ []) remembered-replay "run:notes"

abbrev calls : List Attempt
calls = rule "r" ∷ dynamic "r" ∷ query "s" ∷ rule "r" ∷ []

attempts-count_example :
    (count_for_detection_spec "s" (attempts uuid4 calls empty)
      ≡ min (count_for_detection_spec "s" empty + number (spec_of "s") calls) 3)
    × (count_for_rule "r" (attempts uuid4 calls empty)
        ≡ min (count_for_rule "r" empty + number (rule_of "r") calls) 2)
unfolding count_for_detection_spec count_for_rule
attempts-count_example = attempts-count uuid4 calls empty "s" "r" (omega arith) (omega arith)

chunk_text-Covers_example :
    (chunks : List TextChunk) × (chunk_text "abcde" 2 ≡ ok chunks)
    × (joined chunks ≡ "abcde")
    × Covers "abcde" 2 0 chunks (text_length "abcde")
chunk_text-Covers_example = chunk_text-Covers "abcde" 1

abbrev reading_library : Library
reading_library = record sample_library {
  safe_load = λ s.
      some (dump_rule sample_library (compile sample_library sample_ast "title" "text" [] "high"));
}

abbrev with_rule : Db
with_rule = record empty {
  generated_rules =
      (record {
        id = "r";
        detection_spec_id = "s";
        rule_content = some "selection_a: Image|contains";
        generation_source = "compiler";
        detection_ast_id = none;
        compiled_sigma_id = none;
      })
      ∷ [];
  detection_specs =
      (record {
        id = "s";
        report_id = "rep";
        abstain_code = none;
        spec_payload = some "payload";
        is_validated = true;
      })
      ∷ [];
}

validate_rule-to_yaml_example : validate_rule reading_library "r" with_rule ≡ (
    let content =
      to_yaml reading_library (compile reading_library sample_ast "title" "text" [] "high") in
    let b = contains "Image|contains" content || contains "CommandLine|contains" content in
    ok (record {
      is_valid = b;
      issues = if b then [] else "rule is too broad: missing behavior-specific selectors" ∷ [];
    }))
unfolding to_yaml dump_rule dump_logsource compile has_spec full snapshot_hash
validate_rule-to_yaml_example =
    validate_rule-to_yaml reading_library sample_ast "title" "text" [] "high" refl "r" with_rule _
      refl refl refl refl

record_decision-assert_can_export_example :
    assert_can_export "r" "awaiting_review" none
      (some "run")
      (record_decision uuid4 6 "r" "approved" " ada " "run" "" ready).1
    ≡ (if is_ready (
          keep
            (λ (o : ProofObligationRecord). o.rule_candidate_id == "r" && o.run_id == "run")
            ready.proof_obligations)
        then ok tt
        else err proof_gate_failed)
unfolding is_human strip is_space
record_decision-assert_can_export_example =
    record_decision-assert_can_export uuid4 6 "r" "approved" " ada " "run" "" ready refl refl
      "awaiting_review" refl refl refl

abbrev draft : MemoryWrite
draft = record memory_write { namespace = "detection_spec.draft" }

write-require_memory_contract_example :
    (elem ◌==◌ "detection_spec.draft" (
        available_namespaces
          (λ scope pattern. true)
          "run"
          (write sample_library (λ v. some v) (λ a b c d e. true) uuid4 draft indexed).1)
      ≡ true)
    × (require_memory_contract
          (λ scope pattern. true)
          "run"
          "rule_generation"
          (write sample_library (λ v. some v) (λ a b c d e. true) uuid4 draft indexed).1
        ≡ ok tt)
unfolding upsert_view hashed_payload is_finite hash_payload prev_value write append_event
    current_state is_version split_once contract_of
write-require_memory_contract_example =
    write-require_memory_contract sample_library (λ v. some v) (λ a b c d e. true) uuid4 draft
      indexed (record { version = 1; event_hash = event_hash_of sample_library draft 1 none })
      (λ scope pattern. true) "rule_generation" refl refl refl refl refl

abbrev audited : AgentRunInput
audited = record {
  run_id = "run";
  trace_id = "run";
  agent_name = "rule_generation";
  input_snapshot = Value.text "in";
  output_snapshot = none;
  status = "success";
  retry_attempt = 0;
}
