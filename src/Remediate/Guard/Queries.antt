-- ===== src/Remediate/Guard/Queries.antt =====
-- guard.go: `Get`, `List`, `ExpireDue` and `Stats`.
use tracing_bot.Prelude.{
  ℕ, suc, ◌+◌, String, Bool, ◌&&◌, ◌||◌, not, List, [], ◌∷◌, str_eq, leb, ◌==◌, if◌then◌else◌, any,
  is_empty,
}
use tracing_bot.Prelude.Assoc.{Assoc}
use tracing_bot.Remediate.Types.{
  Time, TenantId, Action, ActionState, proposed, approved, expired, state_eq, ok, err,
}
use tracing_bot.Remediate.Guard.State.{Guard, GuardConfig, Reply, done, refused, get}

pub record ActionFilter : Type 0 where
  pub incident_id : String
  pub states : List ActionState
  pub cursor : String
  pub limit : ℕ

unfoldable pub get_action : Guard → TenantId → String → Reply
get_action g tid id = elim (get g tid id) [ err e ↦ refused e | ok a ↦ done a ]

abbrev pub listed : TenantId → ActionFilter → Action → Bool
listed tid f a =
    str_eq a.tenant tid
    && (str_eq f.incident_id "" || str_eq a.incident_id f.incident_id)
    && (is_empty f.states || any (λ s. state_eq a.state s) f.states)

-- The cursor and the limit are not read, and the cursor returned is empty.
unfoldable pub list : TenantId → ActionFilter → Assoc Action → List Action
list tid f [] = []
list tid f ((k, a) ∷ rest) = let out = list tid f rest in if listed tid f a then a ∷ out else out

-- Whether `ExpireDue` expires an action; an `expires_at` of 0 is the zero time.
abbrev pub is_due : GuardConfig → Time → Action → Bool
is_due cfg now a =
    state_eq a.state proposed && leb (a.created_at + cfg.proposal_ttl) now
    || state_eq a.state approved && not (a.expires_at == 0) && leb a.expires_at now

unfoldable pub expire_action : GuardConfig → Time → Action → Action
expire_action cfg now a =
    if is_due cfg now a then record a { state = expired; updated_at = now } else a

unfoldable pub expire_all : GuardConfig → Time → Assoc Action → Assoc Action
expire_all cfg now [] = []
expire_all cfg now ((k, a) ∷ rest) = (k, expire_action cfg now a) ∷ expire_all cfg now rest

unfoldable pub count_due : GuardConfig → Time → Assoc Action → ℕ
count_due cfg now [] = 0
count_due cfg now ((k, a) ∷ rest) =
    let n = count_due cfg now rest in if is_due cfg now a then suc n else n

unfoldable pub expire_due : Guard → Time → Guard × ℕ
expire_due g now =
    (record g { actions = expire_all g.cfg now g.actions }, count_due g.cfg now g.actions)

-- `Stats`: the count of one state.
unfoldable pub stats : ActionState → Assoc Action → ℕ
stats s [] = 0
stats s ((k, a) ∷ rest) = let n = stats s rest in if state_eq a.state s then suc n else n
