-- ===== src/Remediate/Scenarios/Logs.antt =====
-- An audit log of two tenants, and one entry of it changed.
use tracing_bot.Prelude.{String, ◌≡◌, refl, some, List, [], ◌∷◌, inl, arith}
use tracing_bot.Prelude.Bytes.{Bytes, utf8}
use tracing_bot.Prelude.Assoc.{put, lookup}
use tracing_bot.Remediate.Audit.{
  Event, StoredEvent, AuditLog, new_audit_log, intact, broken_at, append, next_entry, verify_chain,
  tamper_for_test,
}
use tracing_bot.Remediate.Audit.Verify.{
  append_all, append_all-IsSound, new_audit_log-IsSound, verify_chain-append_all,
}
use tracing_bot.Remediate.Audit.Tamper.{
  payload_at, verify_chain-tamper_for_test, IsRespelt, nil, cons, verify_chain-respelt,
}

abbrev event : String → String → String → Event
event tid actor action = record {
  tenant = tid;
  actor = actor;
  action = action;
  payload = 123 ∷ 125 ∷ [];
  timestamp = 7;
}

abbrev events : List Event
events =
    event "acme" "alice" "propose"
    ∷ event "other" "eve" "propose"
    ∷ event "acme" "bob" "approve"
    ∷ []

abbrev same : Bytes → Bytes
same b = b

abbrev log : AuditLog
log = append_all same new_audit_log events

verify_chain-append_all_example : verify_chain same log "acme" 1 0 ≡ intact
verify_chain-append_all_example = verify_chain-append_all same events "acme" 1 0

second_payload : payload_at "acme" 2 log.entries ≡ some (123 ∷ 125 ∷ [])
unfolding payload_at append_all append new_audit_log lookup put
second_payload = refl

verify_chain-tamper_for_test_example :
    verify_chain same (tamper_for_test log "acme" 2 []) "acme" 1 0 ≡ broken_at 2
verify_chain-tamper_for_test_example =
    verify_chain-tamper_for_test same log "acme" 1 0 2 (123 ∷ 125 ∷ []) [] (λ a b e. e)
      (append_all-IsSound same new_audit_log events (new_audit_log-IsSound same)) second_payload
      (λ e. cc) (omega arith) (inl refl)

-- The log of one event, and a log that says that another actor did something else.
abbrev honest : StoredEvent
honest = next_entry same new_audit_log (event "acme" "bob" "approve")

abbrev forged : StoredEvent
forged = record honest { event = event "acme" "bobap" "prove" }

abbrev log_of : StoredEvent → AuditLog
log_of se = record { entries = se ∷ []; seqs = ("acme", 1) ∷ [] }

forged-IsRespelt : IsRespelt honest forged
unfolding utf8
forged-IsRespelt = record { seq = refl; tenant = refl; hash = refl; bytes = refl; time = refl }

verify_chain-respelt_example :
    verify_chain same (log_of honest) "acme" 1 0 ≡ verify_chain same (log_of forged) "acme" 1 0
verify_chain-respelt_example =
    verify_chain-respelt same (log_of honest) (log_of forged) "acme" 1 0 (cons forged-IsRespelt nil)
