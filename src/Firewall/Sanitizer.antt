-- ===== src/Firewall/Sanitizer.antt =====
-- packages/core/src/sanitizer/index.ts. A text is the list of its UTF-16 code units. `JSON.stringify`
-- is taken as an argument that gives the number of UTF-8 bytes of its result, if it has one.
use gyges_research_layer.Base.{
  ℕ, ◌*◌, Bool, true, false, not, ◌&&◌, ◌||◌, List, [], ◌∷◌, Option, none, some, Result, ok, err,
  ltb, leb, ◌==◌, length, keep, if◌then◌else◌,
}

abbrev pub Text : Type 0
Text = List ℕ

-- The finite doubles by their bits, and NaN and the infinities.
pub data Number : Type 0 where
  finite : ℕ → Number
  not_finite : Number

-- A value as `typeof` tells it apart. `unsupported` are functions, symbols and big integers. An object
-- has a prototype, its class's or one that was set, and its own entries, whose keys are distinct.
mutual
  pub data Value : Type 0 where
    text : Text → Value
    number : Number → Value
    boolean : Bool → Value
    null undefined unsupported : Value
    array : Values → Value
    object : Prototype → Entries → Value

  pub data Values : Type 0 where
    nil : Values
    cons : Value → Values → Values

  pub data Prototype : Type 0 where
    ordinary : Prototype
    set_to : Value → Prototype

  pub data Entries : Type 0 where
    none_left : Entries
    entry : Text → Value → Entries → Entries

pub record SanitizerOptions : Type 0 where
  pub max_string_length : ℕ
  pub max_payload_bytes : ℕ

abbrev pub default_sanitizer_options : SanitizerOptions
default_sanitizer_options = record { max_string_length = 4096; max_payload_bytes = 64 * 1024 }

-- The reasons of refusals.
pub data Refusal : Type 0 where
  string_too_long number_not_finite unsupported_type input_undefined not_serializable : Refusal
  payload_too_large : Refusal

-- `DANGEROUS_CONTROL_CHARS`.
abbrev pub is_dangerous : ℕ → Bool
is_dangerous c = leb c 8 || c == 11 || c == 12 || leb 14 c && leb c 31 || leb 127 c && leb c 159

-- What `trim` of JavaScript removes at both ends.
unfoldable pub is_space : ℕ → Bool
is_space c =
    leb 9 c && leb c 13
    || c == 32
    || c == 160
    || c == 5760
    || leb 8192 c && leb c 8202
    || c == 8232
    || c == 8233
    || c == 8239
    || c == 8287
    || c == 12288
    || c == 65279

unfoldable pub strip_control_chars : Text → Text
strip_control_chars s = keep (λ c. not (is_dangerous c)) s

unfoldable pub trim_start : Text → Text
trim_start [] = []
trim_start (c ∷ cs) = if is_space c then trim_start cs else c ∷ cs

abbrev pub is_empty : Text → Bool
is_empty [] = true
is_empty (c ∷ cs) = false

unfoldable pub trim_end : Text → Text
trim_end [] = []
trim_end (c ∷ cs) = let rest = trim_end cs in if is_space c && is_empty rest then [] else c ∷ rest

abbrev pub trim : Text → Text
trim s = trim_end (trim_start s)

abbrev pub cleaned : Text → Text
cleaned s = trim (strip_control_chars s)

abbrev pub text_eq : Text → Text → Bool
text_eq [] [] = true
text_eq (c ∷ cs) (d ∷ ds) = c == d && text_eq cs ds
text_eq _ _ = false

-- `__proto__`.
abbrev pub proto_key : Text
proto_key = 95 ∷ 95 ∷ 112 ∷ 114 ∷ 111 ∷ 116 ∷ 111 ∷ 95 ∷ 95 ∷ []

abbrev pub is_proto : Text → Bool
is_proto k = text_eq k proto_key

-- An object that is being filled: its prototype and its entries.
abbrev pub Fields : Type 0
Fields = Prototype × Entries

abbrev pub as_object : Fields → Value
as_object (q, es) = object q es

-- What an assignment of a value to `__proto__` makes the prototype of an object: an object, an array
-- or null is set, anything else is ignored.
abbrev pub assigned_prototype : Value → Prototype → Prototype
assigned_prototype (array vs) q = set_to (array vs)
assigned_prototype (object p es) q = set_to (object p es)
assigned_prototype null q = set_to null
assigned_prototype _ q = q

-- The value of a result, made into another; and of two results, of which the first error counts.
abbrev pub map_ok : {E A B : Type 0} → (A → B) → Result E A → Result E B
map_ok f (ok a) = ok (f a)
map_ok f (err e) = err e

abbrev pub map_both : {E A B C : Type 0} → (A → B → C) → Result E A → Result E B → Result E C
map_both f (ok a) r = map_ok (f a) r
map_both f (err e) r = err e

-- `out[key] = value`: the key `__proto__` sets the prototype and adds no entry. The fields are those of
-- the entries that come after, none of which has the same key.
abbrev pub with_entry : Text → Value → Fields → Fields
with_entry k w (q, es) = if is_proto k then (assigned_prototype w q, es) else (q, entry k w es)

unfoldable mutual
  pub sanitize_node : SanitizerOptions → Value → Result Refusal Value
  sanitize_node o (text s) =
      if ltb o.max_string_length (length (cleaned s))
      then err string_too_long
      else ok (text (cleaned s))
  sanitize_node o (number (finite n)) = ok (number (finite n))
  sanitize_node o (number not_finite) = err number_not_finite
  sanitize_node o (boolean b) = ok (boolean b)
  sanitize_node o null = ok null
  sanitize_node o undefined = err unsupported_type
  sanitize_node o unsupported = err unsupported_type
  sanitize_node o (array vs) = map_ok (λ ws. array ws) (sanitize_items o vs)
  sanitize_node o (object q es) = map_ok as_object (sanitize_entries o es)

  pub sanitize_items : SanitizerOptions → Values → Result Refusal Values
  sanitize_items o nil = ok nil
  sanitize_items o (cons v vs) =
      map_both (λ w ws. cons w ws) (sanitize_node o v) (sanitize_items o vs)

  pub sanitize_entries : SanitizerOptions → Entries → Result Refusal Fields
  sanitize_entries o none_left = ok (ordinary, none_left)
  sanitize_entries o (entry k v es) =
      map_both (with_entry k) (sanitize_node o v) (sanitize_entries o es)

abbrev pub is_undefined : Value → Bool
is_undefined undefined = true
is_undefined _ = false

-- `serialized` stands for the number of UTF-8 bytes of `JSON.stringify`.
unfoldable pub sanitize_input : (Value → Option ℕ) → SanitizerOptions → Value → Result Refusal Value
sanitize_input serialized o v =
    if is_undefined v then err input_undefined else elim (serialized v) [
      | none ↦ err not_serializable
      | some n ↦ if ltb o.max_payload_bytes n then err payload_too_large else sanitize_node o v
    ]
