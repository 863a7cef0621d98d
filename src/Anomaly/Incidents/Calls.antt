-- ===== src/Anomaly/Incidents/Calls.antt =====
-- internal/anomaly: the calls that write to a grouper, in any order.
use tracing_bot.Prelude.{String, List, [], ◌∷◌}
use tracing_bot.Anomaly.Types.{Time, AnomalyEvent}
use tracing_bot.Anomaly.Grouper.{Grouper, Deps}
use tracing_bot.Anomaly.Incidents.{add, suppress, tick}

-- The calls that write to the grouper.
pub data GrouperCall : Type 0 where
  add_call : Deps → String → AnomalyEvent → GrouperCall
  suppress_call : Deps → String → String → String → GrouperCall
  tick_call : Time → GrouperCall

unfoldable pub regroup : GrouperCall → Grouper → Grouper
regroup (add_call d tid e) g = (add d tid e g).1
regroup (suppress_call d tid id reason) g = (suppress d tid id reason g).1
regroup (tick_call now) g = tick now g

unfoldable pub regroup_all : List GrouperCall → Grouper → Grouper
unfolding regroup
regroup_all [] g = g
regroup_all (c ∷ cs) g = regroup_all cs (regroup c g)
