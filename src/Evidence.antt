-- ===== src/Evidence.antt =====
-- services/evidence.py (EvidenceService) and services/citation_verifier.py. A confidence is of a type that
-- stands for Python's floats, with the test whether it is from 0.0 to 1.0; its column, the agent and the
-- time are written and never read, and left out. The foreign keys are not enforced.
pub mod Faithful
pub mod Sessions
pub mod Agent
use aicti.Base.{
  ℕ, ◌-◌, String, ◌==◌, Bool, true, false, ◌||◌, not, Option, none, some, List, [], ◌∷◌, ◌++◌, map,
  first, Result, ok, err, ◌>>=◌, ◌>>◌, require, if◌then◌else◌, slice_text, text_length, ℤ, pos,
  above, ltb_ℤ, ◌-ℤ◌,
}
use aicti.Db.{Db, ReportChunk, EvidenceSpan}
use aicti.Ingestion.{repeats_key}

-- The `ValueError` of `verify_citation`.
pub data CitationError : Type 0 where
  invalid_offsets : CitationError

unfoldable pub verify_citation : String → String → ℤ → ℤ → Result CitationError Bool
verify_citation text quote start_offset end_offset = do
  require
      (not (
        ltb_ℤ start_offset (pos 0)
        || ltb_ℤ end_offset (pos 0)
        || ltb_ℤ end_offset start_offset
        || ltb_ℤ (pos (text_length text)) end_offset))
      invalid_offsets
  ok (slice_text text (above start_offset) (above end_offset) == quote)

-- What a message names, in the order of the tests.
pub data Fault : Type 0 where
  quote_empty claim_empty confidence_outside start_negative end_before_start chunk_not_found
        before_chunk beyond_chunk citation_invalid quote_differs :
      Fault

-- `rejected` has the identifier of the evidence; `integrity_error` is a commit that repeats a primary key.
pub data EvidenceError : Type 0 where
  empty_payload : EvidenceError
  rejected : Fault → String → EvidenceError
  integrity_error : EvidenceError

pub record EvidenceInput (Float : Type 0) : Type 0 where
  pub evidence_id : String
  pub chunk_id : String
  pub quote : String
  pub char_start : ℤ
  pub char_end : ℤ
  pub supports_claim : String
  pub confidence : Float

-- What follows on the answer of `verify_citation`.
unfoldable pub check_quote : String → Result CitationError Bool → Result EvidenceError (Unit {0})
check_quote evidence_id (err invalid_offsets) = err (rejected citation_invalid evidence_id)
check_quote evidence_id (ok true) = ok tt
check_quote evidence_id (ok false) = err (rejected quote_differs evidence_id)

module _ {Float : Type 0} where
  -- The tests from the row of the chunk on.
  unfoldable pub check_in_chunk :
      EvidenceInput Float → Option ReportChunk → Result EvidenceError (Unit {0})
  unfolding verify_citation check_quote
  check_in_chunk ev none = err (rejected chunk_not_found ev.evidence_id)
  check_in_chunk ev (some chunk) = do
    require (not (ltb_ℤ ev.char_start (pos chunk.char_start)))
        (rejected before_chunk ev.evidence_id)
    require (not (ltb_ℤ (pos chunk.char_end) ev.char_end)) (rejected beyond_chunk ev.evidence_id)
    let relative_start = ev.char_start -ℤ pos chunk.char_start
    let relative_end = ev.char_end -ℤ pos chunk.char_start
    check_quote ev.evidence_id
        (verify_citation chunk.chunk_text ev.quote relative_start relative_end)

  unfoldable pub span_of : String → String → EvidenceInput Float → EvidenceSpan
  span_of report_id run_id ev = record {
    id = ev.evidence_id;
    report_id = report_id;
    chunk_id = ev.chunk_id;
    quote = ev.quote;
    char_start = ev.char_start;
    char_end = ev.char_end;
    run_id = run_id;
    supports_claim = ev.supports_claim;
  }

  -- The commit of the spans.
  unfoldable pub save_spans :
      String → String → List (EvidenceInput Float) → Db → Result EvidenceError (List String) × Db
  unfolding span_of
  save_spans report_id run_id evidence db =
      let ids = map (λ (ev : EvidenceInput Float). ev.evidence_id) evidence in
      if repeats_key (map (λ (e : EvidenceSpan). e.id) db.evidence_spans) ids
      then (err integrity_error, db)
      else (
        ok ids,
        record db { evidence_spans = db.evidence_spans ++ map (span_of report_id run_id) evidence },
      )

  -- The end of `persist_evidence`, on the answer of the tests.
  unfoldable pub persist_valid :
      String
      → String
      → List (EvidenceInput Float)
      → Result EvidenceError (Unit {0})
      → Db
      → Result EvidenceError (List String) × Db
  unfolding save_spans
  persist_valid report_id run_id evidence (err e) db = (err e, db)
  persist_valid report_id run_id evidence (ok done) db = save_spans report_id run_id evidence db

module _ {Float : Type 0} (is_share : Float → Bool) where
  unfoldable pub validate_evidence_span : Db → EvidenceInput Float → Result EvidenceError (Unit {0})
  unfolding check_in_chunk
  validate_evidence_span db ev = do
    require (not (ev.quote == "")) (rejected quote_empty ev.evidence_id)
    require (not (ev.supports_claim == "")) (rejected claim_empty ev.evidence_id)
    require (is_share ev.confidence) (rejected confidence_outside ev.evidence_id)
    require (not (ltb_ℤ ev.char_start (pos 0))) (rejected start_negative ev.evidence_id)
    require (not (ltb_ℤ ev.char_end ev.char_start)) (rejected end_before_start ev.evidence_id)
    check_in_chunk ev (first (λ (c : ReportChunk). c.id == ev.chunk_id) db.report_chunks)

  unfoldable pub validate_all : Db → List (EvidenceInput Float) → Result EvidenceError (Unit {0})
  unfolding validate_evidence_span
  validate_all db [] = ok tt
  validate_all db (ev ∷ evs) = do validate_evidence_span db ev; validate_all db evs

  unfoldable pub persist_evidence :
      String → String → List (EvidenceInput Float) → Db → Result EvidenceError (List String) × Db
  unfolding validate_all persist_valid
  persist_evidence report_id run_id [] db = (err empty_payload, db)
  persist_evidence report_id run_id (ev ∷ evs) db =
      persist_valid report_id run_id (ev ∷ evs) (validate_all db (ev ∷ evs)) db
