-- ===== src/Tests/Governance.antt =====
-- The governance theorems at concrete inputs.
use atlas_alpha.Policy.Durable.{Rows, durable, grant, revoke, list_policies}
use atlas_alpha.Policy.Durable.Refined.{can-durable}
use atlas_alpha.Prelude.{◌≡◌, refl, true, none, some, [], ◌∷◌, ◌↔◌, ◌⊎◌, Some}
use Prim.Native.Nat.{◌%◌}
use atlas_alpha.Prelude.Result.{Result, ok, err}
use atlas_alpha.Value.{text}
use atlas_alpha.Actions.{ActionResult}
use atlas_alpha.Policy.{in_memory, role_permissions, permission_satisfied, can}
use atlas_alpha.Policy.Matching.{Covers, permission_satisfied_iff}
use atlas_alpha.Policy.Roles.{RoleGrants, can_iff}
use atlas_alpha.Audit.{Log, verify_chain, append_event, genesis_hash, compute_event_hash, link}
use atlas_alpha.Audit.Chain.{Linked, verify_chain-ok_iff}
use atlas_alpha.Audit.Tamper.{Collision, SameChain, verify_chain-tamper_evident}
use atlas_alpha.Tests.Fixtures.{env, sum, digest-IsWide, alice, first_event}

permission_satisfied_iff_example :
    (permission_satisfied ("tool:send:*" ∷ []) "tool:sender" ≡ true)
    ↔ Some (λ g. Covers g "tool:sender") ("tool:send:*" ∷ [])
permission_satisfied_iff_example = permission_satisfied_iff ("tool:send:*" ∷ []) "tool:sender"

can_iff_example :
    (can (in_memory role_permissions) (some alice) (some "tool:send:email") ≡ true)
    ↔ Some (RoleGrants role_permissions "tool:send:email") ("member" ∷ [])
can_iff_example = can_iff role_permissions alice "tool:send:email"

abbrev chain : Log
chain = append_event env first_event (append_event env first_event [])

verify_chain-ok_iff_example : (verify_chain env chain).ok ≡ true ↔ Linked env genesis_hash 0 chain
verify_chain-ok_iff_example = verify_chain-ok_iff env chain

-- A chain whose event was changed afterwards, with its digests made anew.
abbrev forged : Log
forged =
    append_event env first_event (append_event env (record first_event { action_id = "act_3" }) [])

verify_chain-tamper_evident_example : SameChain env chain forged ⊎ Collision env
unfolding append_event link compute_event_hash verify_chain
verify_chain-tamper_evident_example =
    verify_chain-tamper_evident env (λ bytes. digest-IsWide (sum bytes % 2)) chain forged refl refl
      refl refl

abbrev sent : ActionResult
sent = record {
  action_id = "act_1";
  tool = "send_email";
  ok = true;
  output = text "sent";
  error = none;
}

abbrev log_of : Result Log → Log
log_of (ok log) = log
log_of (err _) = []

-- A table after two grants and a revocation
abbrev table : Rows
table = revoke "guest" "kg:read:org" (grant "member" "tool:send:*" (grant "guest" "kg:read:org" []))

can-durable_example :
    can (durable table) (some alice) (some "tool:send:email")
    ≡ can (in_memory (list_policies table)) (some alice) (some "tool:send:email")
can-durable_example = can-durable table (some alice) (some "tool:send:email")
