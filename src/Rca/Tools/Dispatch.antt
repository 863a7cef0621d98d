-- ===== src/Rca/Tools/Dispatch.antt =====
-- A call that `validateToolArgs` lets pass, at the registry.
use tracing_bot.Prelude.{String, Option, none, some, [], ◌≡◌, refl, arith}
use text.Mathlib.TextPositions.{eq_refl}
use tracing_bot.Rca.Types.{
  ToolName, tool_unavailable, trace_query, log_query, metric_query, topology_query, memory_query,
  TraceQueryArgs, LogQueryArgs, MetricQueryArgs, TopologyQueryArgs, MemoryQueryArgs, ToolArgs,
}
use tracing_bot.Rca.Tools.{Registry, Reply, dispatch, ask, validate_tool_args}

abbrev bare : String → ToolName → ToolArgs
bare tid name = record {
  tenant_id = tid;
  tool = name;
  trace = none;
  log = none;
  metric = none;
  topology = none;
  memory = none;
}

-- The reply of a backend to a payload, under the name of its tool; without a backend, no rows and the error.
pub data IsReply {A : Type 0} (name : ToolName) (backend : Option (String → A → Reply))
    (tid : String) (q : A) (reply : Reply) : Type 0 where
  unavailable :
      backend ≡ none
      → reply.0.rows ≡ []
      → reply.1 ≡ some tool_unavailable
      → IsReply name backend tid q reply
  answered :
      (query : String → A → Reply)
      → backend ≡ some query
      → reply.0 ≡ record (query tid q).0 { tool = name }
      → reply.1 ≡ (query tid q).1
      → IsReply name backend tid q reply

IsReply-ask :
    {A : Type 0} (name : ToolName) (backend : Option (String → A → Reply)) (tid : String) (q : A)
    → IsReply name backend tid q (ask name backend tid q)
unfolding ask
IsReply-ask name none tid q = unavailable refl refl refl
IsReply-ask name (some query) tid q = answered query refl refl refl

-- The call has one payload, that of its tool and of this tenant, and the reply is the backend's.
pub data Answers (r : Registry) (tid : String) (a : ToolArgs) (reply : Reply) : Type 0 where
  by_trace :
      (q : TraceQueryArgs)
      → a ≡ record (bare tid trace_query) { trace = some q }
      → IsReply trace_query r.trace tid q reply
      → Answers r tid a reply
  by_log :
      (q : LogQueryArgs)
      → a ≡ record (bare tid log_query) { log = some q }
      → IsReply log_query r.log tid q reply
      → Answers r tid a reply
  by_metric :
      (q : MetricQueryArgs)
      → a ≡ record (bare tid metric_query) { metric = some q }
      → IsReply metric_query r.metric tid q reply
      → Answers r tid a reply
  by_topology :
      (q : TopologyQueryArgs)
      → a ≡ record (bare tid topology_query) { topology = some q }
      → IsReply topology_query r.topology tid q reply
      → Answers r tid a reply
  by_memory :
      (q : MemoryQueryArgs)
      → a ≡ record (bare tid memory_query) { memory = some q }
      → IsReply memory_query r.memory tid q reply
      → Answers r tid a reply

abbrev call_of :
    String
    → ToolName
    → Option TraceQueryArgs
    → Option LogQueryArgs
    → Option MetricQueryArgs
    → Option TopologyQueryArgs
    → Option MemoryQueryArgs
    → ToolArgs
call_of tid name t l m g y = record {
  tenant_id = tid;
  tool = name;
  trace = t;
  log = l;
  metric = m;
  topology = g;
  memory = y;
}

module _ (r : Registry) (tid : String) where
  -- By the tool's name and the payloads.
  dispatch-Answers_cases :
      (name : ToolName) (t : Option TraceQueryArgs) (l : Option LogQueryArgs)
      (m : Option MetricQueryArgs) (g : Option TopologyQueryArgs) (y : Option MemoryQueryArgs)
      → validate_tool_args (call_of tid name t l m g y) ≡ none
      → Answers r tid (call_of tid name t l m g y) (dispatch r tid (call_of tid name t l m g y))
  unfolding validate_tool_args dispatch
  dispatch-Answers_cases trace_query (some q) none none none none h =
      by_trace q refl (rw (eq_refl tid) (IsReply-ask trace_query r.trace tid q))
  dispatch-Answers_cases log_query none (some q) none none none h =
      by_log q refl (rw (eq_refl tid) (IsReply-ask log_query r.log tid q))
  dispatch-Answers_cases metric_query none none (some q) none none h =
      by_metric q refl (rw (eq_refl tid) (IsReply-ask metric_query r.metric tid q))
  dispatch-Answers_cases topology_query none none none (some q) none h =
      by_topology q refl (rw (eq_refl tid) (IsReply-ask topology_query r.topology tid q))
  dispatch-Answers_cases memory_query none none none none (some q) h =
      by_memory q refl (rw (eq_refl tid) (IsReply-ask memory_query r.memory tid q))
  dispatch-Answers_cases name t l m g y h = absurd (ground arith)

  -- A call that `validateToolArgs` lets pass has one payload, the one of its tool, and
  -- once it has the tenant, as the engine stamps it, `Dispatch` gives what that tool's
  -- backend replies to that payload, under the tool's name, or no rows and that the tool is unavailable
  -- where it has no backend.
  pub dispatch-Answers :
      (a : ToolArgs)
      → validate_tool_args (record a { tenant_id = tid }) ≡ none
      → Answers r tid (record a { tenant_id = tid }) (dispatch r tid (record a { tenant_id = tid }))
  dispatch-Answers a h = dispatch-Answers_cases a.tool a.trace a.log a.metric a.topology a.memory h
