-- ===== src/Ingestion/Parts.antt =====
-- The parts of a text between blank lines, as the ingestion finds them.
use text.Mathlib.TextLemmas.{append-nil}
use aicti.Base.{
  ℕ, suc, ◌+◌, ◌-◌, ◌≤◌, String, concat, ◌≡◌, refl, sym, ap, ap₂, ◌∙◌, some, List, [], ◌∷◌, map, ok,
  ◌>>=◌, arith, join, join-split, split_text_cons, split_text, find_from, find_from_here, starts,
  starts-prefix, drop_text, text_length, slice_text, drop-drop, drop-append, text_length-append,
  length-drop, take-append, take_text,
}
use aicti.Library.{Library}
use aicti.Ingestion.{IngestionChunk, chunk_key, build_from, build_chunks, place}

-- The separator between the parts.
abbrev pub blank_line : String
blank_line = "\n\n"

-- Each chunk is within the text.
abbrev pub Within : String → List IngestionChunk → Type 0
Within text [] = Unit {0}
Within text (c ∷ cs) =
    (c.char_start ≤ c.char_end) × (c.char_end ≤ text_length text) × Within text cs

abbrev pub texts_of : String → List IngestionChunk → List String
texts_of text = map (λ (c : IngestionChunk). slice_text text c.char_start c.char_end)

-- A part at the cursor is found there, and is the slice up to its end.
part_found :
    (text part rest : String) (cursor : ℕ)
    → cursor ≤ text_length text
    → drop_text cursor text ≡ concat part rest
    → (find_from part text cursor ≡ some cursor)
      × (slice_text text cursor (cursor + text_length part) ≡ part)
      × (drop_text (cursor + text_length part) text ≡ rest)
      × (text_length part + text_length rest ≡ text_length text - cursor)
unfolding slice_text
part_found text part rest cursor inside here =
    let width : (cursor + text_length part) - cursor ≡ text_length part = omega arith in
    (
      find_from_here part text cursor inside (ap (starts part) here ∙ starts-prefix part rest),
      ap (λ n. take_text n (drop_text cursor text)) width
          ∙ ap (take_text (text_length part)) here
          ∙ take-append part rest,
      sym (drop-drop cursor (text_length part) text)
          ∙ ap (drop_text (text_length part)) here
          ∙ drop-append part rest,
      sym (text_length-append part rest) ∙ ap text_length (sym here) ∙ length-drop cursor text,
    )

-- The chunk of a part at the cursor.
abbrev here_chunk : Library → String → String → ℕ → ℕ → IngestionChunk
here_chunk library report_id part start index = record {
  chunk_id = chunk_key library report_id index part start (start + text_length part);
  char_start = start;
  char_end = start + text_length part;
}

module _ (library : Library) (report_id text : String) where
  -- What the loop gives for the parts that stand from the cursor on.
  build_from-parts :
      (part : String) (parts : List String) (cursor index : ℕ)
      → cursor ≤ text_length text
      → drop_text cursor text ≡ join blank_line (part ∷ parts)
      → (chunks : List IngestionChunk) × (build_from library report_id text cursor index
            (part ∷ parts)
          ≡ ok chunks)
        × (texts_of text chunks ≡ part ∷ parts)
        × Within text chunks
  unfolding build_from place text_length
  build_from-parts part [] cursor index inside here =
      let (found, same, dropped, lengths) =
        part_found text part "" cursor inside (here ∙ sym (append-nil part)) in
      (
        here_chunk library report_id part cursor index ∷ [],
        ap (λ o. place library report_id index part o (λ next. ok [])) found,
        ap (λ t. t ∷ []) same,
        (omega arith, omega (arith, inside, lengths), tt),
      )
  build_from-parts part (next ∷ parts) cursor index inside here =
      let (found, same, dropped, lengths) =
        part_found text part (concat blank_line (join blank_line (next ∷ parts))) cursor inside
          here in
      let after : drop_text (cursor + text_length part + 2) text ≡ join blank_line (next ∷ parts) =
        sym (drop-drop (cursor + text_length part) 2 text)
        ∙ ap (drop_text 2) dropped
        ∙ drop-append blank_line (join blank_line (next ∷ parts)) in
      let long : text_length blank_line + text_length (join blank_line (next ∷ parts))
          ≡ text_length (concat blank_line (join blank_line (next ∷ parts))) =
        sym (text_length-append blank_line (join blank_line (next ∷ parts))) in
      let two : text_length blank_line ≡ 2 = refl in
      let (chunks, built, texts, within) =
        build_from-parts next parts (cursor + text_length part + 2) (suc index)
          (omega (arith, inside, lengths, long, two)) after in
      (
        here_chunk library report_id part cursor index ∷ chunks,
        ap
              (λ o.
                place library report_id index part o
                  (λ n. build_from library report_id text n (suc index) (next ∷ parts)))
              found
            ∙ ap (λ r. r >>= λ rest. ok (here_chunk library report_id part cursor index ∷ rest))
                built,
        ap₂ ◌∷◌ same texts,
        (omega arith, omega (arith, inside, lengths), within),
      )

  -- The chunks of a text: always built, within it, and with the parts as their texts.
  pub build_chunks-parts :
      (chunks : List IngestionChunk) × (build_chunks library report_id text ≡ ok chunks)
      × (texts_of text chunks ≡ split_text blank_line text)
      × Within text chunks
  unfolding build_chunks build_from drop_text
  build_chunks-parts =
      let (w, ws, cons) = split_text_cons blank_line text in
      let whole : drop_text 0 text ≡ join blank_line (w ∷ ws) =
        sym (join-split _ _ text) ∙ ap (join blank_line) cons in
      let (chunks, built, texts, within) = build_from-parts w ws 0 0 (omega arith) whole in
      (chunks, ap (build_from library report_id text 0 0) cons ∙ built, texts ∙ sym cons, within)
