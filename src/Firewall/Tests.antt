-- ===== src/Firewall/Tests.antt =====
-- The firewall on concrete requests. The keys of the store stand for `encodeURIComponent`, and every
-- input is taken to be ten bytes long.
use gyges_research_layer.Base.{
  ℕ, ◌≡◌, ◌⊎◌, ◌↔◌, refl, true, String, [], ◌∷◌, Option, some, ok, is_ok, any, keep,
}
use gyges_research_layer.Base.Map
use gyges_research_layer.Base.Map.{Map}
use gyges_research_layer.Vocabulary.{search, fetch_html, low, medium}
use gyges_research_layer.Firewall.Sanitizer.{
  Text, Value, text, number, finite, array, object, ordinary, set_to, entry, none_left, proto_key,
  nil, cons, default_sanitizer_options, is_space, strip_control_chars, trim_start, trim_end,
  sanitize_node, sanitize_input,
}
use gyges_research_layer.Firewall.Plain.{plain, has_proto}
use gyges_research_layer.Firewall.Clean.{IsClean, sanitize_node-Clean}
use gyges_research_layer.Firewall.Accept.{IsAcceptable, sanitize_node_iff}
use gyges_research_layer.Firewall.Policy.{
  CapabilityPolicy, CapabilityRequest, policy_key, decide, evaluate_for, evaluate,
}
use gyges_research_layer.Firewall.Decisions.{
  is_allowed, input_of, Grounds, evaluate-Grounds_iff, evaluate-Clean,
}

abbrev encoded : Text → Option String
encoded [] = some ""
encoded (c ∷ cs) = some "a"

abbrev ten_bytes : Value → Option ℕ
ten_bytes v = some 10

-- A null character and a space around an `a`, in an array.
abbrev spaced : Value
spaced = array (cons (text (32 ∷ 0 ∷ 97 ∷ 32 ∷ [])) nil)

abbrev tidy : Value
tidy = array (cons (text (97 ∷ [])) nil)

abbrev policy : CapabilityPolicy
policy = record {
  agent_id = 97 ∷ [];
  compartment_id = 98 ∷ [];
  allowed_tools = search ∷ fetch_html ∷ [];
  max_risk_level = medium;
  requires_confirmation_above = some low;
}

abbrev policies : Map CapabilityPolicy
policies = ("a::a", policy) ∷ []

abbrev request : CapabilityRequest
request = record {
  agent_id = some (97 ∷ []);
  compartment_id = some (98 ∷ []);
  tool = some search;
  risk_level = some medium;
  input = spaced;
}

-- `{"__proto__": {"a": " b"}, "a": 1}`, and what the sanitizer makes of it.
abbrev lending : Value
lending = object ordinary (
    entry proto_key (object ordinary (entry (97 ∷ []) (text (32 ∷ 98 ∷ [])) none_left))
      (entry (97 ∷ []) (number (finite 1)) none_left))

abbrev lent : Value
lent =
    object (set_to (object ordinary (entry (97 ∷ []) (text (98 ∷ [])) none_left)))
      (entry (97 ∷ []) (number (finite 1)) none_left)

lends : sanitize_node default_sanitizer_options lending ≡ ok lent
unfolding sanitize_node strip_control_chars keep trim_start trim_end is_space
lends = refl

-- A second time the prototype is reset.
taken_back :
    sanitize_node default_sanitizer_options lent
    ≡ ok (object ordinary (entry (97 ∷ []) (number (finite 1)) none_left))
unfolding sanitize_node strip_control_chars keep trim_start trim_end is_space
taken_back = refl

sanitized : sanitize_node default_sanitizer_options spaced ≡ ok tidy
unfolding sanitize_node strip_control_chars keep trim_start trim_end is_space
sanitized = refl

sanitize_node-Clean_example :
    IsClean default_sanitizer_options lent
    × (sanitize_node default_sanitizer_options lent ≡ ok (plain lent))
    × ((has_proto lending ≡ true) ⊎ (sanitize_node default_sanitizer_options lent ≡ ok lent))
sanitize_node-Clean_example = sanitize_node-Clean default_sanitizer_options lending lent lends

sanitize_node_iff_example :
    (is_ok (sanitize_node default_sanitizer_options spaced) ≡ true)
    ↔ IsAcceptable default_sanitizer_options spaced
sanitize_node_iff_example = sanitize_node_iff default_sanitizer_options spaced

evaluate-Grounds_iff_example :
    (is_allowed (evaluate encoded ten_bytes default_sanitizer_options policies request) ≡ true)
    ↔ Grounds encoded ten_bytes default_sanitizer_options policies request
evaluate-Grounds_iff_example =
    evaluate-Grounds_iff encoded ten_bytes default_sanitizer_options policies request

hands_on :
    input_of (evaluate encoded ten_bytes default_sanitizer_options policies request) ≡ some tidy
unfolding evaluate evaluate_for decide policy_key sanitize_input sanitize_node strip_control_chars
    keep trim_start trim_end is_space any Map.get
hands_on = refl

evaluate-Clean_example :
    (is_allowed (evaluate encoded ten_bytes default_sanitizer_options policies request) ≡ true)
    × IsClean default_sanitizer_options tidy
evaluate-Clean_example =
    evaluate-Clean encoded ten_bytes default_sanitizer_options policies request tidy hands_on
