-- ===== src/Firewall/Plain.antt =====
-- The prototypes of the values that packages/core/src/sanitizer/index.ts makes.
use gyges_research_layer.Base.{
  ◌≡◌, refl, ap, Bool, true, false, ◌||◌, Result, ok, err, inl, inr, ltb, length, Bool-cases,
}
use gyges_research_layer.Firewall.Sanitizer.{
  Text, finite, not_finite, Value, Values, Entries, text, number, boolean, null, undefined,
  unsupported, array, object, ordinary, Fields, as_object, nil, cons, none_left, entry,
  SanitizerOptions, Refusal, cleaned, is_proto, map_ok, map_both, with_entry, sanitize_node,
  sanitize_items, sanitize_entries,
}

-- A result, if there is one, has a property.
abbrev pub Yields : {A : Type 0} → (A → Type 0) → Result Refusal A → Type 0
Yields P (ok a) = P a
Yields P (err e) = Unit

pub Yields-map_ok :
    {A B : Type 0} (P : A → Type 0) (Q : B → Type 0) (f : A → B) (r : Result Refusal A)
    → ((a : A) → P a → Q (f a))
    → Yields P r
    → Yields Q (map_ok f r)
Yields-map_ok P Q f (ok a) h p = h a p
Yields-map_ok P Q f (err e) h p = tt

pub Yields-map_both :
    {A B C : Type 0} (P : A → Type 0) (Q : B → Type 0) (S : C → Type 0) (f : A → B → C)
    (r : Result Refusal A) (t : Result Refusal B)
    → ((a : A) (b : B) → P a → Q b → S (f a b))
    → Yields P r
    → Yields Q t
    → Yields S (map_both f r t)
Yields-map_both P Q S f (ok a) t h p q = Yields-map_ok Q S (f a) t (λ b. h a b p) q
Yields-map_both P Q S f (err e) t h p q = tt

-- The same value with the ordinary prototype for every object.
unfoldable mutual
  pub plain : Value → Value
  plain (array vs) = array (plain_items vs)
  plain (object q es) = object ordinary (plain_entries es)
  plain v = v

  pub plain_items : Values → Values
  plain_items nil = nil
  plain_items (cons v vs) = cons (plain v) (plain_items vs)

  pub plain_entries : Entries → Entries
  plain_entries none_left = none_left
  plain_entries (entry k v es) = entry k (plain v) (plain_entries es)

-- Whether a value has an own entry `__proto__` at any depth.
mutual
  pub has_proto : Value → Bool
  has_proto (array vs) = some_has_proto vs
  has_proto (object q es) = keeps_proto es
  has_proto v = false

  pub some_has_proto : Values → Bool
  some_has_proto nil = false
  some_has_proto (cons v vs) = has_proto v || some_has_proto vs

  pub keeps_proto : Entries → Bool
  keeps_proto none_left = false
  keeps_proto (entry k v es) = is_proto k || (has_proto v || keeps_proto es)

abbrev IsPlain : Value → Type 0
IsPlain w = plain w ≡ w

abbrev ArePlain : Values → Type 0
ArePlain ws = plain_items ws ≡ ws

abbrev HasPlain : Fields → Type 0
HasPlain f = (f.0 ≡ ordinary) × (plain_entries f.1 ≡ f.1)

or-false : (a b : Bool) → (a || b) ≡ false → (a ≡ false) × (b ≡ false)
or-false true b h = cc
or-false false b h = (refl, h)

with_entry-HasPlain :
    (k : Text) (w : Value) (f : Fields)
    → is_proto k ≡ false
    → IsPlain w
    → HasPlain f
    → HasPlain (with_entry k w f)
unfolding plain
with_entry-HasPlain k w (q, es) n e h = rw n (h.0, rw (e, h.1) refl)

mutual
  unfolding sanitize_node plain has_proto

  pub node-IsPlain :
      (o : SanitizerOptions) (v : Value) → has_proto v ≡ false → Yields IsPlain (sanitize_node o v)
  node-IsPlain o (text s) h = elim (Bool-cases (ltb o.max_string_length (length (cleaned s)))) [
    | inl e ↦ rw e tt
    | inr e ↦ rw e refl
  ]
  node-IsPlain o (number (finite n)) h = refl
  node-IsPlain o (number not_finite) h = tt
  node-IsPlain o (boolean b) h = refl
  node-IsPlain o null h = refl
  node-IsPlain o undefined h = tt
  node-IsPlain o unsupported h = tt
  node-IsPlain o (array vs) h =
      Yields-map_ok ArePlain IsPlain (λ ws. array ws) (sanitize_items o vs)
        (λ ws e. ap (λ x. array x) e) (items-ArePlain o vs h)
  node-IsPlain o (object q es) h =
      Yields-map_ok HasPlain IsPlain as_object (sanitize_entries o es) (λ f e. rw (e.0, e.1) refl)
        (entries-HasPlain o es h)

  items-ArePlain :
      (o : SanitizerOptions) (vs : Values)
      → some_has_proto vs ≡ false
      → Yields ArePlain (sanitize_items o vs)
  items-ArePlain o nil h = refl
  items-ArePlain o (cons v vs) h =
      Yields-map_both IsPlain ArePlain ArePlain (λ w ws. cons w ws) (sanitize_node o v)
        (sanitize_items o vs) (λ w ws e es. rw (e, es) refl)
        (node-IsPlain o v (or-false (has_proto v) (some_has_proto vs) h).0)
        (items-ArePlain o vs (or-false (has_proto v) (some_has_proto vs) h).1)

  entries-HasPlain :
      (o : SanitizerOptions) (es : Entries)
      → keeps_proto es ≡ false
      → Yields HasPlain (sanitize_entries o es)
  entries-HasPlain o none_left h = (refl, refl)
  entries-HasPlain o (entry k v es) h =
      let here = or-false (is_proto k) (has_proto v || keeps_proto es) h in
      let below = or-false (has_proto v) (keeps_proto es) here.1 in
      Yields-map_both IsPlain HasPlain HasPlain (with_entry k) (sanitize_node o v)
        (sanitize_entries o es) (λ w f e g. with_entry-HasPlain k w f here.0 e g)
        (node-IsPlain o v below.0) (entries-HasPlain o es below.1)
