-- ===== src/Ingestion/Again.antt =====
-- The ingestion of a content that was ingested before.
use mathlib.Core.List.Memᴰ
use mathlib.Core.List.{Memᴰ}
use aicti.Base.{
  ℕ, suc, String, ◌≡◌, refl, sym, ap, ap₂, ◌∙◌, inl, inr, Bool, true, false, some, List, [], ◌∷◌,
  ◌++◌, map, any, all, keep, keep-append, keep-all, Result, ok, ok-injective, arith, ◌==◌, eq_iff,
  eq_refl, leb, if◌then◌else◌, Bool-cases, mem-any,
}
use aicti.Library.{Library}
use aicti.Db.{Db, Report, ReportChunk}
use aicti.Ingestion.{
  IngestionError, IngestionChunk, IngestionResult, report_chunk, report_chunks_of, insert_chunk,
  by_index, to_ingestion_chunk, existing, repeats_key, keys_repeat, new_report, ingest_found,
  ingest,
}
use aicti.Ingestion.Stored.{IsUnknown, with_report, ingest-new}

-- Each chunk is that of a stored report.
abbrev pub Owned : Db → Type 0
Owned db =
    (c : ReportChunk)
    → Memᴰ c db.report_chunks
    → (r : Report) × Memᴰ r db.reports × (r.id ≡ c.report_id)

abbrev is_of : String → ReportChunk → Bool
is_of id c = c.report_id == id

keep_none :
    {A : Type 0} (p : A → Bool) (xs : List A) → ((x : A) → Memᴰ x xs → p x ≡ false) → keep p xs ≡ []
keep_none p [] h = refl
keep_none p (x ∷ xs) h =
    rw (h x (Memᴰ.head refl), if◌then◌else◌) (keep_none p xs (λ y m. h y (Memᴰ.tail m)))

module _ (id text : String) where
  all-rows :
      (index : ℕ) (chunks : List IngestionChunk)
      → all (is_of id) (report_chunks_of id text index chunks) ≡ true
  unfolding report_chunks_of report_chunk
  all-rows index [] = refl
  all-rows index (c ∷ cs) = rw (eq_refl id) (all-rows (suc index) cs)

  -- The rows are in the order of their places.
  by_index-rows :
      (index : ℕ) (chunks : List IngestionChunk)
      → by_index (report_chunks_of id text index chunks) ≡ report_chunks_of id text index chunks
  unfolding report_chunks_of report_chunk by_index insert_chunk
  by_index-rows index [] = refl
  by_index-rows index (c ∷ []) = refl
  by_index-rows index (c ∷ d ∷ ds) =
      let earlier : leb index (suc index) ≡ true = ground arith in
      ap (insert_chunk (report_chunk id text index c)) (by_index-rows (suc index) (d ∷ ds))
      ∙ ap
          (λ b.
            if b
            then report_chunks_of id text index (c ∷ d ∷ ds)
            else report_chunk id text (suc index) d
              ∷ insert_chunk (report_chunk id text index c)
                  (report_chunks_of id text (suc (suc index)) ds))
          earlier

  map-rows :
      (index : ℕ) (chunks : List IngestionChunk)
      → map to_ingestion_chunk (report_chunks_of id text index chunks) ≡ chunks
  unfolding report_chunks_of report_chunk to_ingestion_chunk
  map-rows index [] = refl
  map-rows index (c ∷ cs) = ap (λ rest. c ∷ rest) (map-rows (suc index) cs)

-- A report with a fresh key has no chunks yet.
no_chunks :
    (report : Report) (chunks : List ReportChunk) (db : Db)
    → Owned db
    → keys_repeat report chunks db ≡ false
    → keep (is_of report.id) db.report_chunks ≡ []
unfolding keys_repeat repeats_key
no_chunks report chunks db owned fresh =
    let new : any (λ i. report.id == i) (map (λ (r : Report). r.id) db.reports) ≡ false =
      ground (arith, fresh) in
    keep_none (is_of report.id) db.report_chunks (λ c m.
      let (r, known, same) = owned c m in
      elim (Bool-cases (is_of report.id c)) [
        | inr e ↦ e
        | inl e ↦
            let named : report.id ≡ r.id = sym ((eq_iff c.report_id report.id).0 e) ∙ sym same in
            let hit : any (λ i. report.id == i) (map (λ (r : Report). r.id) db.reports) ≡ true =
              mem-any (λ i. report.id == i) (map (λ (r : Report). r.id) db.reports)
                (Memᴰ.map (λ (r : Report). r.id) known) ((eq_iff report.id r.id).1 named) in
            cc
      ])

-- From what a first call gives and what a second gives after it.
same_again :
    (call : Result IngestionError IngestionResult × Db)
    (again : Db → Result IngestionError IngestionResult × Db) (answer result : IngestionResult)
    (after : Db)
    → call ≡ (ok answer, after)
    → again after ≡ (ok answer, after)
    → call.0 ≡ ok result
    → again call.1 ≡ (ok result, call.1)
same_again call again answer result after run second h =
    let answers : answer ≡ result = ok-injective (sym (ap (λ o. o.0) run) ∙ h) in
    ap (λ o. again o.1) run
    ∙ second
    ∙ ap (λ a. (ok a, after)) answers
    ∙ ap (λ o. (ok result, o.1)) (sym run)

module _ (library : Library) (source_type filename raw_text source_type' filename' : String)
    (db : Db) where
  abbrev report : Report
  report = new_report library source_type filename raw_text

  abbrev has_hash : Report → Bool
  has_hash r = r.content_hash == library.sha256 raw_text

  -- After a new report, which is found by its hash.
  again_new :
      (chunks : List IngestionChunk)
      → Owned db
      → IsUnknown library raw_text db
      → keys_repeat report (report_chunks_of report.id raw_text 0 chunks) db ≡ false
      → ingest library source_type' filename' (some raw_text) (with_report report chunks db)
        ≡ (ok (record { report_id = report.id; chunks = chunks }), with_report report chunks db)
  unfolding ingest ingest_found existing new_report
  again_new chunks owned unknown fresh =
      let rows = report_chunks_of report.id raw_text 0 chunks in
      let after = with_report report chunks db in
      let known : keep has_hash after.reports ≡ report ∷ [] =
        keep-append has_hash db.reports (report ∷ [])
        ∙ ap (λ rs. rs ++ keep has_hash (report ∷ [])) unknown
        ∙ ap (λ b. if b then report ∷ [] else []) (eq_refl (library.sha256 raw_text)) in
      let own : keep (is_of report.id) after.report_chunks ≡ rows =
        keep-append (is_of report.id) db.report_chunks rows
        ∙ ap₂ ◌++◌ (no_chunks report rows db owned fresh)
            (keep-all (is_of report.id) rows (all-rows report.id raw_text 0 chunks)) in
      ap
        (λ found.
          ingest_found library found (new_report library source_type' filename' raw_text) after)
        known
      ∙ ap
          (λ cs. (
            ok (record { report_id = report.id; chunks = map to_ingestion_chunk (by_index cs) }),
            after,
          ))
          own
      ∙ ap
          (λ cs. (ok (record { report_id = report.id; chunks = map to_ingestion_chunk cs }), after))
          (by_index-rows report.id raw_text 0 chunks)
      ∙ ap (λ cs. (ok (record { report_id = report.id; chunks = cs }), after))
          (map-rows report.id raw_text 0 chunks)

  -- By what the query for the hash finds.
  again_found :
      (found : List Report) (result : IngestionResult)
      → keep has_hash db.reports ≡ found
      → Owned db
      → (ingest library source_type filename (some raw_text) db).0 ≡ ok result
      → ingest library source_type' filename'
          (some raw_text)
          (ingest library source_type filename (some raw_text) db).1
        ≡ (ok result, (ingest library source_type filename (some raw_text) db).1)
  unfolding ingest ingest_found
  again_found [] result e owned h =
      let (chunks, texts, within, outcome) =
        ingest-new library source_type filename raw_text db e in
      elim outcome [
        | inl (repeated, run) ↦ let failed = ap (λ o. o.0) run in cc
        | inr (fresh, run) ↦
            same_again (ingest library source_type filename (some raw_text) db)
              (ingest library source_type' filename' (some raw_text))
              (record { report_id = report.id; chunks = chunks }) result
              (with_report report chunks db) run (again_new chunks owned e fresh) h
      ]
  again_found (r ∷ []) result e owned h =
      same_again (ingest library source_type filename (some raw_text) db)
        (ingest library source_type' filename' (some raw_text)) (existing r db) result db
        (ap (λ found. ingest_found library found report db) e)
        (ap
          (λ found.
            ingest_found library found (new_report library source_type' filename' raw_text) db)
          e)
        h
  again_found (r ∷ s ∷ rs) result e owned h =
      let failed = ap (λ found. (ingest_found library found report db).0) e in cc

  -- Where each chunk is that of a stored report and an ingestion succeeds, the ingestion of the same content, under
  -- whatever type and name, gives the same answer and changes nothing.
  pub ingest-ingest :
      (result : IngestionResult)
      → Owned db
      → (ingest library source_type filename (some raw_text) db).0 ≡ ok result
      → ingest library source_type' filename'
          (some raw_text)
          (ingest library source_type filename (some raw_text) db).1
        ≡ (ok result, (ingest library source_type filename (some raw_text) db).1)
  ingest-ingest result owned h = again_found (keep has_hash db.reports) result refl owned h
