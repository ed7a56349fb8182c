-- ===== src/Firewall/Accept.antt =====
-- What packages/core/src/sanitizer/index.ts refuses.
use gyges_research_layer.Base.{
  ◌≤◌, ◌≡◌, ◌↔◌, refl, is_ok, true, ◌&&◌, Result, ok, err, arith, length,
}
use gyges_research_layer.Firewall.Sanitizer.{
  finite, not_finite, Value, Values, Entries, text, number, boolean, null, undefined, unsupported,
  array, object, as_object, nil, cons, none_left, entry, SanitizerOptions, Refusal, cleaned, map_ok,
  map_both, with_entry, sanitize_node, sanitize_items, sanitize_entries,
}

-- Every text value is short enough once it is cleaned, every number finite and nothing unsupported.
-- The keys of objects may be any texts.
mutual
  pub IsAcceptable : SanitizerOptions → Value → Type 0
  IsAcceptable o (text s) = length (cleaned s) ≤ o.max_string_length
  IsAcceptable o (number (finite n)) = Unit
  IsAcceptable o (number not_finite) = ⊥
  IsAcceptable o (boolean b) = Unit
  IsAcceptable o null = Unit
  IsAcceptable o undefined = ⊥
  IsAcceptable o unsupported = ⊥
  IsAcceptable o (array vs) = AreAcceptable o vs
  IsAcceptable o (object q es) = HasAcceptable o es

  pub AreAcceptable : SanitizerOptions → Values → Type 0
  AreAcceptable o nil = Unit
  AreAcceptable o (cons v vs) = IsAcceptable o v × AreAcceptable o vs

  pub HasAcceptable : SanitizerOptions → Entries → Type 0
  HasAcceptable o none_left = Unit
  HasAcceptable o (entry k v es) = IsAcceptable o v × HasAcceptable o es

is_ok-map_ok : {A B : Type 0} (f : A → B) (r : Result Refusal A) → is_ok (map_ok f r) ≡ is_ok r
is_ok-map_ok f (ok a) = refl
is_ok-map_ok f (err e) = refl

is_ok-map_both :
    {A B C : Type 0} (f : A → B → C) (r : Result Refusal A) (t : Result Refusal B)
    → is_ok (map_both f r t) ≡ is_ok r && is_ok t
is_ok-map_both f (ok a) t = is_ok-map_ok (f a) t
is_ok-map_both f (err e) t = refl

both_ok :
    {A B C : Type 0} (f : A → B → C) (r : Result Refusal A) (t : Result Refusal B) (P Q : Type 0)
    → ((is_ok r ≡ true) ↔ P)
    → ((is_ok t ≡ true) ↔ Q)
    → (is_ok (map_both f r t) ≡ true) ↔ (P × Q)
both_ok f r t P Q p q = rw (is_ok-map_both f r t) (ground (arith, p, q))

mutual
  unfolding sanitize_node IsAcceptable

  node_ok :
      (o : SanitizerOptions) (v : Value) → (is_ok (sanitize_node o v) ≡ true) ↔ IsAcceptable o v
  node_ok o (text s) = ground arith
  node_ok o (number (finite n)) = ground arith
  node_ok o (number not_finite) = ground arith
  node_ok o (boolean b) = ground arith
  node_ok o null = ground arith
  node_ok o undefined = ground arith
  node_ok o unsupported = ground arith
  node_ok o (array vs) = rw (is_ok-map_ok (λ ws. array ws) (sanitize_items o vs)) (items_ok o vs)
  node_ok o (object q es) = rw (is_ok-map_ok as_object (sanitize_entries o es)) (entries_ok o es)

  items_ok :
      (o : SanitizerOptions) (vs : Values)
      → (is_ok (sanitize_items o vs) ≡ true) ↔ AreAcceptable o vs
  items_ok o nil = ground arith
  items_ok o (cons v vs) =
      both_ok (λ w ws. cons w ws) (sanitize_node o v) (sanitize_items o vs) (IsAcceptable o v)
        (AreAcceptable o vs) (node_ok o v) (items_ok o vs)

  entries_ok :
      (o : SanitizerOptions) (es : Entries)
      → (is_ok (sanitize_entries o es) ≡ true) ↔ HasAcceptable o es
  entries_ok o none_left = ground arith
  entries_ok o (entry k v es) =
      both_ok (with_entry k) (sanitize_node o v) (sanitize_entries o es) (IsAcceptable o v)
        (HasAcceptable o es) (node_ok o v) (entries_ok o es)

-- A value is refused unless every text value in it is short enough once it is cleaned, every number is
-- finite and nothing is of an unsupported type; any other value is let through. The keys of objects
-- play no part in it.
pub sanitize_node_iff :
    (o : SanitizerOptions) (v : Value) → (is_ok (sanitize_node o v) ≡ true) ↔ IsAcceptable o v
sanitize_node_iff o v = node_ok o v
