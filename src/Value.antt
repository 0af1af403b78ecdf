-- ===== src/Value.antt =====
-- The values of a decoded JSON or YAML document. Keys of mappings are texts; a number that is no
-- integer stands as its text.
use aicti.Base.{
  ℕ, String, ◌==◌, Bool, true, false, not, ◌&&◌, Option, none, some, List, [], ◌∷◌, if◌then◌else◌,
}

mutual
  pub data Value : Type 0 where
    null : Value
    bool : Bool → Value
    int : ℕ → Value
    neg_int : ℕ → Value
    float : String → Value
    text : String → Value
    list : Items → Value
    dict : Fields → Value

  pub data Fields : Type 0 where
    end : Fields
    field : String → Value → Fields → Fields

  pub data Items : Type 0 where
    nil : Items
    cons : Value → Items → Items

-- `d.get(key)`
unfoldable pub get : String → Fields → Option Value
get key end = none
get key (field k v fs) = if k == key then some v else get key fs

-- `d[key] = value`: an old key keeps its place.
unfoldable pub set : String → Value → Fields → Fields
set key value end = field key value end
set key value (field k v fs) =
    let rest = set key value fs in if k == key then field k value fs else field k v rest

unfoldable pub texts_of : List String → Items
texts_of [] = nil
texts_of (s ∷ ss) = cons (Value.text s) (texts_of ss)

-- `v == s` for a text `s`
unfoldable pub is_text : Option Value → String → Bool
is_text (some (text t)) s = t == s
is_text _ s = false

-- Whether a float's text is neither NaN nor an infinity, as json spells them.
unfoldable pub is_finite_float : String → Bool
is_finite_float t = not (t == "NaN") && not (t == "Infinity") && not (t == "-Infinity")

-- What `json.dumps` takes with `allow_nan=False`.
unfoldable mutual
  pub is_finite : Value → Bool
  is_finite null = true
  is_finite (bool b) = true
  is_finite (int n) = true
  is_finite (neg_int n) = true
  is_finite (float t) = is_finite_float t
  is_finite (text t) = true
  is_finite (list items) = are_finite items
  is_finite (dict fields) = has_finite fields

  pub are_finite : Items → Bool
  are_finite nil = true
  are_finite (cons v items) = is_finite v && are_finite items

  pub has_finite : Fields → Bool
  has_finite end = true
  has_finite (field k v fields) = is_finite v && has_finite fields
