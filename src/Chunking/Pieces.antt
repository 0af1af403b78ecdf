-- ===== src/Chunking/Pieces.antt =====
-- The pieces of a text.
use aicti.Base.{
  ℕ, zero, suc, ◌+◌, ◌≤◌, ◌<◌, String, concat, ◌≡◌, refl, sym, ap, ◌∙◌, List, [], ◌∷◌, ok, ltb,
  take_text, drop_text, text_length, slice_text, drop_all, slice_rest, arith, Bool-cases, inl, inr,
}
use aicti.Chunking.{TextChunk, min, chunk_loop, or_blank, chunk_text}

-- The texts of the pieces, one after the other.
abbrev pub joined : List TextChunk → String
joined [] = ""
joined (c ∷ cs) = concat c.text (joined cs)

-- Each piece starts where the one before it ends, has at most `size` characters, and has the text
-- between its positions.
abbrev pub Covers : String → ℕ → ℕ → List TextChunk → ℕ → Type 0
Covers text size from [] to = from ≡ to
Covers text size from (c ∷ cs) to =
    (c.start ≡ from)
    × (c.start ≤ c.end)
    × (c.end ≤ c.start + size)
    × (c.text ≡ slice_text text c.start c.end)
    × Covers text size c.end cs to

abbrev cut : String → ℕ → ℕ → ℕ
cut text size start = min (start + size) (text_length text)

cut_bounds :
    (text : String) (k start : ℕ)
    → start < text_length text
    → (start < cut text (suc k) start)
      × (cut text (suc k) start ≤ start + suc k)
      × (cut text (suc k) start ≤ text_length text)
cut_bounds text k start h = (ground arith, ground arith, ground arith)

joined-chunk_loop :
    (fuel : ℕ) (text : String) (k start : ℕ)
    → text_length text ≤ start + fuel
    → joined (chunk_loop fuel text (suc k) start) ≡ drop_text start text
unfolding chunk_loop
joined-chunk_loop zero text k start h = sym (drop_all start text (omega (arith, h)))
joined-chunk_loop (suc fuel) text k start h = elim (Bool-cases (ltb start (text_length text))) [
  | inr e ↦ rw e (sym (drop_all start text (ground (arith, e))))
  | inl e ↦
      let inside : start < text_length text = ground (arith, e) in
      let (later, short, within) = cut_bounds text k start inside in
      rw e (
        ap (λ t. concat (slice_text text start (cut text (suc k) start)) t)
          (joined-chunk_loop fuel text k (cut text (suc k) start) (omega (arith, h, later)))
        ∙ slice_rest text start (cut text (suc k) start) (omega (arith, later)))
]

Covers-chunk_loop :
    (fuel : ℕ) (text : String) (k start : ℕ)
    → text_length text ≤ start + fuel
    → start ≤ text_length text
    → Covers text (suc k) start (chunk_loop fuel text (suc k) start) (text_length text)
unfolding chunk_loop
Covers-chunk_loop zero text k start h inside = omega (arith, h, inside)
Covers-chunk_loop (suc fuel) text k start h inside =
    elim (Bool-cases (ltb start (text_length text))) [
      | inr e ↦ rw e (ground (arith, e, inside))
      | inl e ↦
          let below : start < text_length text = ground (arith, e) in
          let (later, short, within) = cut_bounds text k start below in
          rw e (
            refl,
            omega (arith, later),
            short,
            refl,
            Covers-chunk_loop fuel text k (cut text (suc k) start) (omega (arith, h, later)) within,
          )
    ]

or_blank-pieces :
    (text : String) (n : ℕ) (cs : List TextChunk)
    → joined cs ≡ text
    → Covers text (suc n) 0 cs (text_length text)
    → (joined (or_blank cs) ≡ text) × Covers text (suc n) 0 (or_blank cs) (text_length text)
unfolding or_blank slice_text take_text
or_blank-pieces text n [] h covers = (h, (refl, omega arith, omega arith, refl, covers))
or_blank-pieces text n (c ∷ cs) h covers = (h, covers)

-- For every size above 0 the cutting returns pieces whose texts, one after the other, are the text; the
-- first starts at 0, each other one where the one before it ends, the last ends at the text's
-- length, and each has at most `n + 1` characters, those between its start and its end.
pub chunk_text-Covers :
    (text : String) (n : ℕ)
    → (chunks : List TextChunk) × (chunk_text text (suc n) ≡ ok chunks)
      × (joined chunks ≡ text)
      × Covers text (suc n) 0 chunks (text_length text)
unfolding chunk_text drop_text
chunk_text-Covers text n =
    let cs = chunk_loop (text_length text) text (suc n) 0 in
    let (whole, covers) =
      or_blank-pieces text n cs (joined-chunk_loop (text_length text) text n 0 (omega arith))
        (Covers-chunk_loop (text_length text) text n 0 (omega arith) (omega arith)) in
    (or_blank cs, refl, whole, covers)
