-- ===== src/Witnesses/Reports.antt =====
-- One report of two paragraphs, and feedback on a rule.
use aicti.Base.{
  String, ◌≡◌, refl, true, Option, some, List, [], ◌∷◌, map, ok, err, ◌⊎◌, join, pos, starts,
  find_from, split_text, text_length, drop_text,
}
use aicti.Value.{Value, get}
use aicti.Library.{Library}
use aicti.Hashing.{make_idempotency_key}
use aicti.Db.{Report, ReportChunk, empty}
use aicti.Ingestion.{
  IngestionChunk, IngestionResult, integrity_error, ingest, report_chunks_of, save_report,
  new_report,
}
use aicti.Ingestion.Parts.{blank_line, Within}
use aicti.Ingestion.Stored.{with_report, IsFree, join-ingest}
use aicti.Ingestion.Again.{ingest-ingest}
use aicti.Evidence.{EvidenceInput}
use aicti.Evidence.Faithful.{IsFaithful}
use aicti.Evidence.Sessions.{ingestion, evidence, session, session-IsFaithful}
use aicti.Feedback.{
  ReviewFeedback, reject, to_regression_test, assert_candidate_safe, repeats_rejected,
}
use aicti.Feedback.Learned.{assert_candidate_safe-to_regression_test}
use aicti.Witnesses.Components.{sample_library}

abbrev paragraph : Option Value → String
paragraph (some (Value.text t)) = t
paragraph _ = "report"

abbrev dumped : Value → String
dumped (Value.dict fs) = paragraph (get "chunk_text" fs)
dumped _ = "?"

abbrev library : Library
library = record sample_library { dumps = dumped }

abbrev content : String
content = "ab\n\ncd"

abbrev quote_b : EvidenceInput String
quote_b = record {
  evidence_id = "e";
  chunk_id = "idem_hash of chunk|ab";
  quote = "b";
  char_start = pos 1;
  char_end = pos 2;
  supports_claim = "claim";
  confidence = "0.9";
}

session-IsFaithful_example : IsFaithful (
    session library
      (λ x. true)
      (ingestion "text" "a.txt" (some content)
        ∷ evidence "idem_hash of report|report" "run" (quote_b ∷ [])
        ∷ [])
      empty)
session-IsFaithful_example =
    session-IsFaithful library (λ x. true)
      (ingestion "text" "a.txt" (some content)
        ∷ evidence "idem_hash of report|report" "run" (quote_b ∷ [])
        ∷ [])
      empty (record { cut = λ c m. elim m [ ]; quoted = λ e m. elim m [ ] })

abbrev stored : IngestionResult
stored = record {
  report_id = "idem_hash of report|report";
  chunks =
      record { chunk_id = "idem_hash of chunk|ab"; char_start = 0; char_end = 2 }
      ∷ record { chunk_id = "idem_hash of chunk|cd"; char_start = 4; char_end = 6 }
      ∷ [];
}

ingest-ingest_example :
    ingest library "pdf" "b.pdf"
      (some content)
      (ingest library "text" "a.txt" (some content) empty).1
    ≡ (ok stored, (ingest library "text" "a.txt" (some content) empty).1)
unfolding ingest split_text starts find_from text_length drop_text save_report report_chunks_of
    make_idempotency_key get
ingest-ingest_example =
    ingest-ingest library "text" "a.txt" content "pdf" "b.pdf" empty stored (λ c m. elim m [ ]) refl

abbrev a_report : Report
a_report = new_report library "text" "a.txt" content

join-ingest_example :
    (chunks : List IngestionChunk) × Within content chunks
    × (((¬ IsFree a_report (report_chunks_of a_report.id content 0 chunks) empty)
          × (ingest library "text" "a.txt" (some content) empty ≡ (err integrity_error, empty)))
        ⊎ (IsFree a_report (report_chunks_of a_report.id content 0 chunks) empty
            × (ingest library "text" "a.txt" (some content) empty ≡ (
              ok (record { report_id = a_report.id; chunks = chunks }),
              with_report a_report chunks empty,
            ))
            × (join blank_line (
                  map
                    (λ (c : ReportChunk). c.chunk_text)
                    (report_chunks_of a_report.id content 0 chunks))
                ≡ content)))
join-ingest_example = join-ingest library "text" "a.txt" content empty refl

abbrev rejection : ReviewFeedback
rejection = record {
  rule_candidate_id = "r";
  decision = reject;
  reason = "too broad";
  pattern = "Image|contains";
}

assert_candidate_safe-to_regression_test_example :
    assert_candidate_safe
      (map (to_regression_test library) (rejection ∷ []))
      ("User" ∷ "Image|contains" ∷ [])
    ≡ err (repeats_rejected "Image|contains")
assert_candidate_safe-to_regression_test_example =
    assert_candidate_safe-to_regression_test library (rejection ∷ [])
      ("User" ∷ "Image|contains" ∷ [])
