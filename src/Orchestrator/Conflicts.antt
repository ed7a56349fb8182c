-- ===== src/Orchestrator/Conflicts.antt =====
-- packages/core/src/runtime-orchestrator/conflicts.ts.
use gyges_research_layer.Base.{
  Bool, not, ◌&&◌, ◌||◌, String, List, [], ◌∷◌, ◌++◌, Option, none, some, ltb, ◌==◌, length,
  if◌then◌else◌, any,
}
use gyges_research_layer.Orchestrator.Types.{
  UnifiedPrivacyAction, delay, require_approval, cooldown, temporary_block, deny, PolicySignal,
  PolicyConflict, ConflictType, action_conflict, timing_conflict, approval_vs_deny, delay_vs_block,
  Resolution, most_restrictive_wins, deny_wins, approval_wins_over_delay, cooldown_wins_over_delay,
  precedence_of, is_rotation, action_eq, is_allow, is_deny,
}

-- An action with the id of the first signal that has it.
abbrev pub Seen : Type 0
Seen = List (UnifiedPrivacyAction × String)

abbrev pub has_action : UnifiedPrivacyAction → Seen → Bool
has_action a seen = any (λ e. action_eq e.0 a) seen

module _ {Metadata : Type 0} where
  unfoldable pub note_all : Seen → List (PolicySignal Metadata) → Seen
  note_all seen [] = seen
  note_all seen (s ∷ ss) =
      note_all
        (if not (is_rotation s.action) && not (has_action s.action seen)
          then seen ++ (s.action, s.id) ∷ []
          else seen)
        ss

abbrev pub conflict :
    List String
    → ConflictType
    → Resolution
    → UnifiedPrivacyAction
    → UnifiedPrivacyAction
    → PolicyConflict
conflict ids kind resolution winner loser = record {
  signal_ids = ids;
  conflict_type = kind;
  resolution = resolution;
  winner = winner;
  loser = loser;
}

-- One of the two is `x` and the other `y`.
abbrev pub are :
    UnifiedPrivacyAction → UnifiedPrivacyAction → UnifiedPrivacyAction → UnifiedPrivacyAction → Bool
are x y a b = action_eq a x && action_eq b y || action_eq a y && action_eq b x

unfoldable pub resolve_conflict :
    UnifiedPrivacyAction → UnifiedPrivacyAction → List String → Option PolicyConflict
resolve_conflict a b ids =
    if is_deny a || is_deny b
    then some (conflict ids approval_vs_deny deny_wins deny (if is_deny a then b else a))
    else if are temporary_block cooldown a b
    then some (conflict ids action_conflict most_restrictive_wins temporary_block cooldown)
    else if are cooldown delay a b
    then some (conflict ids delay_vs_block cooldown_wins_over_delay cooldown delay)
    else if are require_approval delay a b
    then some (conflict ids timing_conflict approval_wins_over_delay require_approval delay)
    else if not (precedence_of a == precedence_of b)
    then some (
        conflict ids action_conflict most_restrictive_wins
          (if ltb (precedence_of b) (precedence_of a) then a else b)
          (if ltb (precedence_of b) (precedence_of a) then b else a))
    else none

-- The pairs of one entry with the later ones.
unfoldable pub conflicts_with : UnifiedPrivacyAction × String → Seen → List PolicyConflict
conflicts_with e [] = []
conflicts_with e (f ∷ fs) =
    let rest = conflicts_with e fs in
    if is_allow e.0 || is_allow f.0
    then rest
    else elim (resolve_conflict e.0 f.0 (e.1 ∷ f.1 ∷ [])) [ none ↦ rest | some c ↦ c ∷ rest ]

unfoldable pub all_conflicts : Seen → List PolicyConflict
all_conflicts [] = []
all_conflicts (e ∷ es) = conflicts_with e es ++ all_conflicts es

module _ {Metadata : Type 0} where
  unfoldable pub detect_conflicts : List (PolicySignal Metadata) → List PolicyConflict
  detect_conflicts signals =
      let seen = note_all [] signals in if ltb (length seen) 2 then [] else all_conflicts seen
