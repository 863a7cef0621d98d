-- ===== src/Sampler/Scenarios.antt =====
-- A set of two predicates for a tenant, which gets a third, and spans of two tenants.
use mathlib.Core.List.{Memᴰ}
use tracing_bot.Prelude.{
  All, List, sym, ap, ◌∙◌, ◌<◌, ◌+◌, true, ℕ, ◌≤◌, String, ◌≡◌, refl, false, [], ◌∷◌, arith,
}
use tracing_bot.Prelude.Int.{pos}
use tracing_bot.Sampler.Predicates.{
  InterestPredicate, investigation, Trace, PredicateSet, new_predicate_set, add, list, tenant_count,
  expire_due, set_interest_predicate, match_trace, store_updated,
}
use tracing_bot.Sampler.Predicates.Runs.{
  Admits, setting, matching, apply, Reach, here, next, tenant_count-Reach,
}
use tracing_bot.Sampler.Predicates.Bound.{name_keeps}
use tracing_bot.Sampler.Assembly.{Span, AssemblyConfig, Deps, keep_error, new_manager}
use tracing_bot.Sampler.Assembly.Runs.{Call as AssemblyCall, consuming, ticking, run}
use tracing_bot.Sampler.Assembly.Isolation.{WasConsumed, traces-run}
use tracing_bot.Sampler.Assembly.Isolation.Filed.{IsClean}
use tracing_bot.Sampler.Predicates.Effects.{
  Sweeps, Evicts, add-Evicts, list-set_interest_predicate, expire_due_lem,
}

abbrev predicate : String → ℕ → InterestPredicate
predicate id expiry = record {
  id = id;
  tenant = "acme";
  scope = investigation;
  source = "rca:inv-1";
  services = "cart" ∷ [];
  operations = [];
  attr_equals = [];
  error_sig_ids = [];
  path_sigs = [];
  trace_ids = [];
  min_duration = 0;
  errors_only = false;
  narrow_level = 0;
  hits = 0;
  created_at = 1;
  expires_at = expiry;
}

abbrev cart_trace : Trace
cart_trace = record {
  trace_id = 7;
  tenant = "acme";
  duration_nanos = 10;
  error_count = 0;
  services = "cart" ∷ [];
  path_signature = 3;
}

abbrev fresh_set : PredicateSet
fresh_set = new_predicate_set (pos 2)

abbrev set_a : PredicateSet
set_a = apply fresh_set (setting "acme" (predicate "a" 10))

abbrev set_ab : PredicateSet
set_ab = apply set_a (setting "acme" (predicate "b" 20))

abbrev set_hit : PredicateSet
set_hit = apply set_ab (matching cart_trace)

abbrev IsOwn : PredicateSet → Type 0
IsOwn s = All (λ q. q.tenant ≡ "acme") s.snapshot

own-Mem :
    (ps : List InterestPredicate) (q : InterestPredicate)
    → All (λ p. p.tenant ≡ "acme") ps
    → Memᴰ q ps
    → q.tenant ≡ "acme"
own-Mem [] q a m = elim m [ ]
own-Mem (p ∷ ps) q a (Memᴰ.head e) = ap (λ (x : InterestPredicate). x.tenant) e ∙ a.0
own-Mem (p ∷ ps) q a (Memᴰ.tail m) = own-Mem ps q a.1 m

admitted : (s : PredicateSet) (p : InterestPredicate) → IsOwn s → Admits s (setting "acme" p)
admitted s p own q m same =
    own-Mem s.snapshot q own m ∙ sym (name_keeps s (record p { tenant = "acme" })).2

owned : IsOwn fresh_set × IsOwn set_a × IsOwn set_hit
unfolding new_predicate_set apply set_interest_predicate match_trace store_updated
owned = (tt, (refl, tt), (refl, (refl, tt)))

calls : Reach fresh_set (apply set_hit (setting "acme" (predicate "c" 30)))
calls =
    next
      (next
        (next
          (next here (setting "acme" (predicate "a" 10))
            (admitted fresh_set (predicate "a" 10) owned.0))
          (setting "acme" (predicate "b" 20)) (admitted set_a (predicate "b" 20) owned.1))
        (matching cart_trace) tt)
      (setting "acme" (predicate "c" 30)) (admitted set_hit (predicate "c" 30) owned.2)

tenant_count-Reach_example :
    tenant_count "acme" (apply set_hit (setting "acme" (predicate "c" 30))).snapshot
    ≤ (new_predicate_set (pos 2)).max_preds
tenant_count-Reach_example =
    tenant_count-Reach (pos 2) (apply set_hit (setting "acme" (predicate "c" 30))) "acme" calls

at_bound : (0 < set_ab.max_preds) × (set_ab.max_preds ≤ tenant_count "acme" set_ab.snapshot)
unfolding new_predicate_set apply set_interest_predicate tenant_count
at_bound = (omega arith, omega arith)

add-Evicts_example : Evicts set_ab (predicate "c" 30) (add set_ab (predicate "c" 30)).0
add-Evicts_example = add-Evicts set_ab (predicate "c" 30) at_bound.0 at_bound.1

list-set_interest_predicate_example :
    list "other" (set_interest_predicate set_ab "acme" (predicate "c" 30)).0 ≡ list "other" set_ab
list-set_interest_predicate_example =
    list-set_interest_predicate set_ab "acme" "other" (predicate "c" 30) at_bound.0 refl

expire_due_lem_example :
    let (r, n) = expire_due set_ab 15 in
    Sweeps 15 set_ab.snapshot r.snapshot n × ((expire_due r 15).1 ≡ 0)
expire_due_lem_example = expire_due_lem set_ab 15

abbrev span : ℕ → ℕ → Span
span trace id = record { trace_id = trace; span_id = id; tenant = ""; size_bytes = 5 }

abbrev keep_all : Deps
keep_all = record {
  score = λ i id. i + id;
  decide =
      λ t. record { tenant = t.tenant; trace_id = t.trace_id; keep = true; reason = keep_error };
}

abbrev assembly_cfg : AssemblyConfig
assembly_cfg = record { idle_timeout = 8; hard_timeout = 30 }

-- Two tenants use one trace id, and a span is delivered twice.
abbrev deliveries : List AssemblyCall
deliveries =
    consuming keep_all 1 "acme" (span 7 1 ∷ span 7 2 ∷ [])
    ∷ consuming keep_all 2 "other" (span 7 1 ∷ [])
    ∷ consuming keep_all 3 "acme" (span 7 2 ∷ [])
    ∷ ticking keep_all 40
    ∷ []

traces-run_example :
    All (IsClean (WasConsumed deliveries)) (run deliveries (new_manager assembly_cfg 2)).traces
traces-run_example = traces-run assembly_cfg 2 deliveries
