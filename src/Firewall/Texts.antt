-- ===== src/Firewall/Texts.antt =====
-- Texts under the cleaning of packages/core/src/sanitizer/index.ts.
use gyges_research_layer.Base.{
  ◌≤◌, ◌≡◌, refl, ap, ◌∙◌, false, ◌&&◌, [], ◌∷◌, inl, inr, length, keep, Bool-cases, All,
}
use gyges_research_layer.Firewall.Sanitizer.{
  Text, SanitizerOptions, is_dangerous, is_space, strip_control_chars, trim_start, trim_end, trim,
  cleaned, is_empty,
}

-- A text has no white space at its start.
abbrev Starts : Text → Type 0
Starts [] = Unit
Starts (c ∷ cs) = is_space c ≡ false

trim_start-Starts : (s : Text) → Starts (trim_start s)
unfolding trim_start
trim_start-Starts [] = tt
trim_start-Starts (c ∷ cs) = elim (Bool-cases (is_space c)) [
  | inl h ↦ rw h (trim_start-Starts cs)
  | inr h ↦ rw h h
]

trim_end-Starts : (s : Text) → Starts s → Starts (trim_end s)
unfolding trim_end
trim_end-Starts [] h = tt
trim_end-Starts (c ∷ cs) h = rw h h

Starts-trim_start : (s : Text) → Starts s → trim_start s ≡ s
unfolding trim_start
Starts-trim_start [] h = refl
Starts-trim_start (c ∷ cs) h = rw h refl

trim_end_idempotent : (s : Text) → trim_end (trim_end s) ≡ trim_end s
unfolding trim_end
trim_end_idempotent [] = refl
trim_end_idempotent (c ∷ cs) = elim (Bool-cases (is_space c && is_empty (trim_end cs))) [
  | inl h ↦ rw h refl
  | inr h ↦ rw h (rw (trim_end_idempotent cs, h) refl)
]

pub trim_idempotent : (s : Text) → trim (trim s) ≡ trim s
trim_idempotent s =
    ap trim_end (
      Starts-trim_start (trim_end (trim_start s))
        (trim_end-Starts (trim_start s) (trim_start-Starts s)))
    ∙ trim_end_idempotent (trim_start s)

abbrev pub Harmless : Text → Type 0
Harmless s = All (λ c. is_dangerous c ≡ false) s

strip-Harmless : (s : Text) → Harmless (strip_control_chars s)
unfolding strip_control_chars keep
strip-Harmless [] = tt
strip-Harmless (c ∷ cs) = elim (Bool-cases (is_dangerous c)) [
  | inl h ↦ rw h (strip-Harmless cs)
  | inr h ↦ rw h (h, strip-Harmless cs)
]

pub Harmless-strip : (s : Text) → Harmless s → strip_control_chars s ≡ s
unfolding strip_control_chars keep
Harmless-strip [] a = refl
Harmless-strip (c ∷ cs) a = rw a.0 (ap (λ ds. c ∷ ds) (Harmless-strip cs a.1))

trim_start-Harmless : (s : Text) → Harmless s → Harmless (trim_start s)
unfolding trim_start
trim_start-Harmless [] a = tt
trim_start-Harmless (c ∷ cs) a = elim (Bool-cases (is_space c)) [
  | inl h ↦ rw h (trim_start-Harmless cs a.1)
  | inr h ↦ rw h a
]

trim_end-Harmless : (s : Text) → Harmless s → Harmless (trim_end s)
unfolding trim_end
trim_end-Harmless [] a = tt
trim_end-Harmless (c ∷ cs) a = elim (Bool-cases (is_space c && is_empty (trim_end cs))) [
  | inl h ↦ rw h tt
  | inr h ↦ rw h (a.0, trim_end-Harmless cs a.1)
]

pub cleaned-Harmless : (s : Text) → Harmless (cleaned s)
cleaned-Harmless s =
    trim_end-Harmless (trim_start (strip_control_chars s))
      (trim_start-Harmless (strip_control_chars s) (strip-Harmless s))

cleaned_idempotent : (s : Text) → cleaned (cleaned s) ≡ cleaned s
cleaned_idempotent s =
    ap trim (Harmless-strip (cleaned s) (cleaned-Harmless s))
    ∙ trim_idempotent (strip_control_chars s)

-- A text without control characters, without white space at its ends, and within the bound.
pub record IsCleanText (o : SanitizerOptions) (s : Text) : Type 0 where
  pub harmless : Harmless s
  pub trimmed : trim s ≡ s
  pub bounded : length s ≤ o.max_string_length
