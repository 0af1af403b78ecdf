-- ===== src/Base/Cuts.antt =====
-- Slices of a text, and slices of slices.
use Prim.Native.Nat.{ℕ, zero, suc, ◌+◌, ◌-◌, ◌≤◌}
use Prim.Native.String.{String, ◌++◌}
use mathlib.Core.Path.{◌≡◌, refl, sym, ap, ◌∙◌}
use native.Mathlib.Omega.{arith}
use text.Mathlib.TextLemmas.{nil-append, cons-append}
use aicti.Base.Texts.{concat}
use aicti.Base.Slices.{take_text, drop_text, text_length, take-drop}

-- `text[start:end]`
unfoldable pub slice_text : String → ℕ → ℕ → String
slice_text text start end = take_text (end - start) (drop_text start text)

pub drop_all : (n : ℕ) (s : String) → text_length s ≤ n → drop_text n s ≡ ""
unfolding drop_text text_length
drop_all zero String.[] h = refl
drop_all zero (String.◌∷◌ c s) h = ground arith
drop_all (suc n) String.[] h = refl
drop_all (suc n) (String.◌∷◌ c s) h = drop_all n s (omega (arith, h))

pub drop_blank : (n : ℕ) → drop_text n "" ≡ ""
unfolding drop_text
drop_blank zero = refl
drop_blank (suc n) = refl

pub drop-drop : (m n : ℕ) (s : String) → drop_text n (drop_text m s) ≡ drop_text (m + n) s
unfolding drop_text
drop-drop zero n s = let e : n ≡ 0 + n = omega arith in ap (λ t. drop_text t s) e
drop-drop (suc m) n String.[] = drop_blank n ∙ sym (drop_blank (suc m + n))
drop-drop (suc m) n (String.◌∷◌ c s) =
    let e : suc (m + n) ≡ suc m + n = omega arith in
    drop-drop m n s ∙ ap (λ t. drop_text t (String.◌∷◌ c s)) e

-- The text of a piece and the text from its end on.
pub slice_rest :
    (text : String) (start stop : ℕ)
    → start ≤ stop
    → concat (slice_text text start stop) (drop_text stop text) ≡ drop_text start text
unfolding slice_text
slice_rest text start stop h =
    let whole : start + (stop - start) ≡ stop = omega (arith, h) in
    ap (λ t. concat (take_text (stop - start) (drop_text start text)) t)
      (ap (λ t. drop_text t text) (sym whole) ∙ sym (drop-drop start (stop - start) text))
    ∙ take-drop (stop - start) (drop_text start text)

pub text_length-append : (s t : String) → text_length (s ++ t) ≡ text_length s + text_length t
unfolding text_length
text_length-append String.[] t = ap text_length (nil-append t) ∙ omega arith
text_length-append (String.◌∷◌ c s) t =
    ap text_length (cons-append c s t) ∙ omega (arith, text_length-append s t)

pub drop-append : (s t : String) → drop_text (text_length s) (s ++ t) ≡ t
unfolding text_length drop_text
drop-append String.[] t = nil-append t
drop-append (String.◌∷◌ c s) t =
    ap (drop_text (suc (text_length s))) (cons-append c s t) ∙ drop-append s t

pub take-append : (s t : String) → take_text (text_length s) (s ++ t) ≡ s
unfolding text_length take_text
take-append String.[] t = refl
take-append (String.◌∷◌ c s) t =
    ap (take_text (suc (text_length s))) (cons-append c s t)
    ∙ ap (λ u. String.◌∷◌ c u) (take-append s t)

pub length-drop : (n : ℕ) (s : String) → text_length (drop_text n s) ≡ text_length s - n
unfolding text_length drop_text
length-drop zero s = omega arith
length-drop (suc n) String.[] = omega arith
length-drop (suc n) (String.◌∷◌ c s) = length-drop n s ∙ omega arith

take_blank : (n : ℕ) → take_text n "" ≡ ""
unfolding take_text
take_blank zero = refl
take_blank (suc n) = refl

drop-take : (m k : ℕ) (s : String) → drop_text m (take_text (m + k) s) ≡ take_text k (drop_text m s)
unfolding take_text drop_text
drop-take zero k s = let e : 0 + k ≡ k = omega arith in ap (λ n. take_text n s) e
drop-take (suc m) k String.[] = ap (drop_text (suc m)) (take_blank (suc m + k)) ∙ sym (take_blank k)
drop-take (suc m) k (String.◌∷◌ c s) =
    let e : suc m + k ≡ suc (m + k) = omega arith in
    ap (λ n. drop_text (suc m) (take_text n (String.◌∷◌ c s))) e ∙ drop-take m k s

take-take : (m k : ℕ) (s : String) → take_text m (take_text (m + k) s) ≡ take_text m s
unfolding take_text
take-take zero k s = refl
take-take (suc m) k String.[] = ap (take_text (suc m)) (take_blank (suc m + k))
take-take (suc m) k (String.◌∷◌ c s) =
    let e : suc m + k ≡ suc (m + k) = omega arith in
    ap (λ n. take_text (suc m) (take_text n (String.◌∷◌ c s))) e
    ∙ ap (λ u. String.◌∷◌ c u) (take-take m k s)

-- A slice of a slice is a slice of the text.
pub slice-slice :
    (s : String) (a x y b : ℕ)
    → a ≤ x
    → x ≤ y
    → y ≤ b
    → slice_text (slice_text s a b) (x - a) (y - a) ≡ slice_text s x y
unfolding slice_text
slice-slice s a x y b h k l =
    let width : (y - a) - (x - a) ≡ y - x = omega (arith, h, k) in
    let outer : b - a ≡ (x - a) + (b - x) = omega (arith, h, k, l) in
    let inner : b - x ≡ (y - x) + (b - y) = omega (arith, h, k, l) in
    let start : a + (x - a) ≡ x = omega (arith, h) in
    ap (λ n. take_text n (drop_text (x - a) (take_text (b - a) (drop_text a s)))) width
    ∙ ap (λ n. take_text (y - x) (drop_text (x - a) (take_text n (drop_text a s)))) outer
    ∙ ap (take_text (y - x)) (drop-take (x - a) (b - x) (drop_text a s))
    ∙ ap (λ n. take_text (y - x) (take_text n (drop_text (x - a) (drop_text a s)))) inner
    ∙ take-take (y - x) (b - y) (drop_text (x - a) (drop_text a s))
    ∙ ap (take_text (y - x)) (drop-drop a (x - a) s ∙ ap (λ n. drop_text n s) start)
