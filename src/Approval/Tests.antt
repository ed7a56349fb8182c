-- ===== src/Approval/Tests.antt =====
-- The approval queue on concrete histories.
use gyges_research_layer.Base.{
  ℕ, true, false, ◌≡◌, ◌≢◌, ◌↔◌, refl, List, [], ◌∷◌, none, some, is_ok, keep,
}
use gyges_research_layer.Base.Map
use gyges_research_layer.Vocabulary.{fetch_html, high}
use gyges_research_layer.Approval.{
  QueueEntry, ApprovalQueue, CreateApprovalRequestInput, approved, pending, Call, creates,
  finalizes, gets, lists, expires, approves, rejects, set_status, new, new_entry, step, run, create,
  finalize, decide_entry, apply_expiry, is_due, token_matches, list_pending, expire_old_requests,
}
use gyges_research_layer.Approval.Entry.{entry_run, get-run}
use gyges_research_layer.Approval.Lifecycle.{CanFinalize, finalize_iff, terminal_absorbs}
use gyges_research_layer.Approval.Provenance.{Approved, approved_needs_token}

abbrev page : CreateApprovalRequestInput ℕ
page = record {
  agent_id = "agent";
  compartment_id = "press";
  tool = fetch_html;
  risk_level = high;
  input = 7;
  sanitized_input = none;
  reason = "new host";
}

-- Two requests, the first approved after a wrong token, the second left to expire.
abbrev history : List (ℕ × Call ℕ)
history =
    (0, creates "r1" "secret" page)
    ∷ (5, creates "r2" "other" page)
    ∷ (10, finalizes "r1" "guess" approves)
    ∷ (20, finalizes "r1" "secret" approves)
    ∷ (200, lists)
    ∷ (210, finalizes "r2" "other" approves)
    ∷ []

abbrev two : ApprovalQueue ℕ
two = run (new (some 100)) ((0, creates "r1" "secret" page) ∷ (5, creates "r2" "other" page) ∷ [])

abbrev r1 : QueueEntry ℕ
r1 = set_status approved (new_entry 100 0 "r1" "secret" page)

decided_once : Map.get "r1" (run (new (some 100)) history).entries ≡ some r1
unfolding run step create finalize list_pending decide_entry apply_expiry is_due token_matches new
    new_entry Map.get Map.set Map.modify Map.modify_all
decided_once = refl

approved_needs_token_example : Approved "r1" r1 history
approved_needs_token_example =
    approved_needs_token (some 100) history "r1" r1 decided_once (unfold new_entry in refl)

finalize_iff_example :
    (is_ok (finalize 20 "r1" "secret" approves two).1 ≡ true)
    ↔ ((e : QueueEntry ℕ) × (Map.get "r1" two.entries ≡ some e) × CanFinalize 20 "secret" e)
finalize_iff_example = finalize_iff two 20 "r1" "secret" approves

accepted : is_ok (finalize 20 "r1" "secret" approves two).1 ≡ true
unfolding run step create finalize decide_entry apply_expiry is_due token_matches new new_entry
    Map.get Map.set
accepted = refl

-- A request is not accepted at its deadline, nor with an empty token.
too_late : is_ok (finalize 100 "r1" "secret" approves two).1 ≡ false
unfolding run step create finalize decide_entry apply_expiry is_due token_matches new new_entry
    Map.get Map.set
too_late = refl

abbrev afterwards : List (ℕ × Call ℕ)
afterwards = (300, finalizes "r1" "secret" rejects) ∷ (301, expires) ∷ (302, gets "r1") ∷ []

r1-IsTerminal : r1.request.status ≢ pending
unfolding new_entry
r1-IsTerminal h = cc

terminal_absorbs_example :
    Map.get "r1" (run (run (new (some 100)) history) afterwards).entries ≡ some r1
terminal_absorbs_example =
    terminal_absorbs (run (new (some 100)) history) "r1" afterwards r1 decided_once r1-IsTerminal
      (λ h. h, (λ h. h, (λ h. h, tt)))

get-run_example :
    Map.get "r2" (run (new (some 100)) history).entries
    ≡ entry_run
        (new {Payload = ℕ} (some 100)).ttl_ms
        "r2"
        history
        (Map.get "r2" (new {Payload = ℕ} (some 100)).entries)
get-run_example = get-run (new (some 100)) "r2" history

one_expires : (expire_old_requests 102 two).1 ≡ 1
unfolding run step create expire_old_requests apply_expiry is_due new new_entry Map.set Map.values
    Map.modify_all keep
one_expires = refl
