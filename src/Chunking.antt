-- ===== src/Chunking.antt =====
-- services/chunking.py: the cutting of a text into pieces.
pub mod Pieces
use aicti.Base.{
  ℕ, zero, suc, ◌+◌, ◌-◌, String, concat, Bool, true, false, List, [], ◌∷◌, Result, ok, err,
  if◌then◌else◌, ltb, leb, slice_text, text_length, is_empty,
}

-- `ValueError`
pub data ChunkError : Type 0 where
  chunk_size_not_positive : ChunkError

pub record TextChunk : Type 0 where
  pub text : String
  pub start : ℕ
  pub end : ℕ

abbrev pub min : ℕ → ℕ → ℕ
min a b = if leb a b then a else b

-- The loop, run at most as often as the first argument says.
unfoldable pub chunk_loop : ℕ → String → ℕ → ℕ → List TextChunk
chunk_loop zero text chunk_size start = []
chunk_loop (suc fuel) text chunk_size start =
    let end = min (start + chunk_size) (text_length text) in
    let rest = chunk_loop fuel text chunk_size end in
    if ltb start (text_length text)
    then (record { text = slice_text text start end; start = start; end = end }) ∷ rest
    else []

unfoldable pub or_blank : List TextChunk → List TextChunk
or_blank [] = (record { text = ""; start = 0; end = 0 }) ∷ []
or_blank (c ∷ cs) = c ∷ cs

-- A size below 0 raises as 0 does.
unfoldable pub chunk_text : String → ℕ → Result ChunkError (List TextChunk)
unfolding or_blank
chunk_text text zero = err chunk_size_not_positive
chunk_text text (suc n) = ok (or_blank (chunk_loop (text_length text) text (suc n) 0))
