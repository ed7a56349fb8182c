-- ===== src/Firewall/Clean.antt =====
-- What packages/core/src/sanitizer/index.ts lets through, and what it makes of that a second time.
use gyges_research_layer.Base.{
  ◌≤◌, ◌≡◌, refl, subst, ap, ◌∙◌, ◌⊎◌, true, false, Result, ok, inl, inr, arith, ltb, length,
  if◌then◌else◌, Bool-cases,
}
use gyges_research_layer.Firewall.Sanitizer.{
  Text, finite, not_finite, Value, Values, Entries, text, number, boolean, null, undefined,
  unsupported, array, object, Prototype, ordinary, set_to, Fields, as_object, assigned_prototype,
  nil, cons, none_left, entry, SanitizerOptions, Refusal, strip_control_chars, trim, cleaned,
  is_proto, map_ok, map_both, with_entry, sanitize_node, sanitize_items, sanitize_entries,
}
use gyges_research_layer.Firewall.Plain.{
  Yields, Yields-map_ok, Yields-map_both, plain, plain_items, plain_entries, has_proto,
  node-IsPlain,
}
use gyges_research_layer.Firewall.Texts.{
  trim_idempotent, Harmless-strip, cleaned-Harmless, IsCleanText,
}

-- Every text value is clean, every number finite, nothing unsupported, and no own key is `__proto__`.
-- That holds of the prototypes that were set, too. Keys may otherwise be any texts.
mutual
  pub IsClean : SanitizerOptions → Value → Type 0
  IsClean o (text s) = IsCleanText o s
  IsClean o (number (finite n)) = Unit
  IsClean o (number not_finite) = ⊥
  IsClean o (boolean b) = Unit
  IsClean o null = Unit
  IsClean o undefined = ⊥
  IsClean o unsupported = ⊥
  IsClean o (array vs) = AreClean o vs
  IsClean o (object q es) = IsCleanPrototype o q × HasClean o es

  pub IsCleanPrototype : SanitizerOptions → Prototype → Type 0
  IsCleanPrototype o ordinary = Unit
  IsCleanPrototype o (set_to v) = IsClean o v

  pub AreClean : SanitizerOptions → Values → Type 0
  AreClean o nil = Unit
  AreClean o (cons v vs) = IsClean o v × AreClean o vs

  pub HasClean : SanitizerOptions → Entries → Type 0
  HasClean o none_left = Unit
  HasClean o (entry k v es) = (is_proto k ≡ false) × IsClean o v × HasClean o es

cleaned-IsCleanText :
    (o : SanitizerOptions) (s : Text)
    → length (cleaned s) ≤ o.max_string_length
    → IsCleanText o (cleaned s)
cleaned-IsCleanText o s h = record {
  harmless = cleaned-Harmless s;
  trimmed = trim_idempotent (strip_control_chars s);
  bounded = h;
}

-- The object that is being filled is clean so far.
abbrev AreFields : SanitizerOptions → Fields → Type 0
AreFields o (q, es) = IsCleanPrototype o q × HasClean o es

assigned_prototype-Clean :
    (o : SanitizerOptions) (w : Value) (q : Prototype)
    → IsClean o w
    → IsCleanPrototype o q
    → IsCleanPrototype o (assigned_prototype w q)
unfolding IsClean
assigned_prototype-Clean o (text s) q c d = d
assigned_prototype-Clean o (number n) q c d = d
assigned_prototype-Clean o (boolean b) q c d = d
assigned_prototype-Clean o null q c d = tt
assigned_prototype-Clean o undefined q c d = d
assigned_prototype-Clean o unsupported q c d = d
assigned_prototype-Clean o (array vs) q c d = c
assigned_prototype-Clean o (object p es) q c d = c

with_entry-Clean :
    (o : SanitizerOptions) (k : Text) (w : Value) (f : Fields)
    → IsClean o w
    → AreFields o f
    → AreFields o (with_entry k w f)
unfolding IsClean
with_entry-Clean o k w (q, es) c cs = elim (Bool-cases (is_proto k)) [
  | inl p ↦ rw p (assigned_prototype-Clean o w q c cs.0, cs.1)
  | inr p ↦ rw p (cs.0, (p, c, cs.1))
]

mutual
  unfolding sanitize_node IsClean

  node-Clean : (o : SanitizerOptions) (v : Value) → Yields (IsClean o) (sanitize_node o v)
  node-Clean o (text s) = elim (Bool-cases (ltb o.max_string_length (length (cleaned s)))) [
    | inl h ↦ rw h tt
    | inr h ↦ rw h (cleaned-IsCleanText o s (ground (arith, h)))
  ]
  node-Clean o (number (finite n)) = tt
  node-Clean o (number not_finite) = tt
  node-Clean o (boolean b) = tt
  node-Clean o null = tt
  node-Clean o undefined = tt
  node-Clean o unsupported = tt
  node-Clean o (array vs) =
      Yields-map_ok (AreClean o) (IsClean o) (λ ws. array ws) (sanitize_items o vs) (λ ws c. c)
        (items-Clean o vs)
  node-Clean o (object q es) =
      Yields-map_ok (AreFields o) (IsClean o) as_object (sanitize_entries o es) (λ f c. c)
        (entries-Clean o es)

  items-Clean : (o : SanitizerOptions) (vs : Values) → Yields (AreClean o) (sanitize_items o vs)
  items-Clean o nil = tt
  items-Clean o (cons v vs) =
      Yields-map_both (IsClean o) (AreClean o) (AreClean o) (λ w ws. cons w ws) (sanitize_node o v)
        (sanitize_items o vs) (λ w ws c cs. (c, cs)) (node-Clean o v) (items-Clean o vs)

  entries-Clean :
      (o : SanitizerOptions) (es : Entries) → Yields (AreFields o) (sanitize_entries o es)
  entries-Clean o none_left = (tt, tt)
  entries-Clean o (entry k v es) =
      Yields-map_both (IsClean o) (AreFields o) (AreFields o) (with_entry k) (sanitize_node o v)
        (sanitize_entries o es) (with_entry-Clean o k) (node-Clean o v) (entries-Clean o es)

both_ok_lem :
    {A B C : Type 0} (f : A → B → C) {r : Result Refusal A} {t : Result Refusal B} {a : A} {b : B}
    → r ≡ ok a
    → t ≡ ok b
    → map_both f r t ≡ ok (f a b)
both_ok_lem f h k = rw (h, k) refl

text-unchanged :
    (o : SanitizerOptions) (s : Text) → IsCleanText o s → sanitize_node o (text s) ≡ ok (text s)
unfolding sanitize_node
text-unchanged o s c =
    let same : cleaned s ≡ s = ap trim (Harmless-strip s c.harmless) ∙ c.trimmed in
    ground (arith, same, ap length same, c.bounded)

mutual
  unfolding sanitize_node IsClean plain

  node-again : (o : SanitizerOptions) (v : Value) → IsClean o v → sanitize_node o v ≡ ok (plain v)
  node-again o (text s) c = text-unchanged o s c
  node-again o (number (finite n)) c = refl
  node-again o (number not_finite) c = absurd c
  node-again o (boolean b) c = refl
  node-again o null c = refl
  node-again o undefined c = absurd c
  node-again o unsupported c = absurd c
  node-again o (array vs) c = ap (map_ok (λ ws. array ws)) (items-again o vs c)
  node-again o (object q es) c = ap (map_ok as_object) (entries-again o es c.1)

  items-again :
      (o : SanitizerOptions) (vs : Values)
      → AreClean o vs
      → sanitize_items o vs ≡ ok (plain_items vs)
  items-again o nil c = refl
  items-again o (cons v vs) c =
      both_ok_lem (λ w ws. cons w ws) (node-again o v c.0) (items-again o vs c.1)

  entries-again :
      (o : SanitizerOptions) (es : Entries)
      → HasClean o es
      → sanitize_entries o es ≡ ok (ordinary, plain_entries es)
  entries-again o none_left c = refl
  entries-again o (entry k v es) c =
      both_ok_lem (with_entry k) (node-again o v c.1) (entries-again o es c.2)
      ∙ ap
          (λ b. ok (
            if b
            then (assigned_prototype (plain v) ordinary, plain_entries es)
            else (ordinary, entry k (plain v) (plain_entries es))))
          c.0

-- In what the sanitizer lets through every text value is clean, which says nothing of the keys of
-- objects, every number is finite, nothing is of an unsupported type and no object has an own entry
-- `__proto__`. Sanitizing it again changes nothing but that every object gets back the ordinary
-- prototype, and so nothing at all unless an object of the input has an own entry `__proto__`.
pub sanitize_node-Clean :
    (o : SanitizerOptions) (v w : Value)
    → sanitize_node o v ≡ ok w
    → IsClean o w
      × (sanitize_node o w ≡ ok (plain w))
      × ((has_proto v ≡ true) ⊎ (sanitize_node o w ≡ ok w))
sanitize_node-Clean o v w h =
    let clean : IsClean o w = subst (Yields (IsClean o)) h (node-Clean o v) in
    let again = node-again o w clean in
    (
      clean,
      again,
      elim (Bool-cases (has_proto v)) [
        | inl e ↦ inl e
        | inr n ↦
            inr (again ∙ ap (λ x. ok x) (subst (Yields (λ x. plain x ≡ x)) h (node-IsPlain o v n)))
      ],
    )
