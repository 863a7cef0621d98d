-- ===== src/Sampler/Assembly/Isolation.antt =====
-- assembly.go: that a trace has the spans of one tenant and of one trace id, each once.
pub mod Filed
use mathlib.Core.List.{map, Memᴰ}
use tracing_bot.Prelude.{
  ℕ, zero, suc, ◌%◌, String, ◌≡◌, refl, sym, ap, subst, ◌∙◌, inl, inr, Bool, true, false, some,
  List, [], ◌∷◌, ◌++◌, ◌==◌, eq_iff, arith, Bool-cases, Option-cases, any, All, All-append,
  some_inj,
}
use tracing_bot.Sampler.Assembly.{
  Span, TraceKey, key_eq, OpenTrace, Buffer, find, store, Decision, AssemblyConfig, Deps, Manager,
  new_manager, set_at, shard_for, or_open, with_span, is_seen, consume_stamped, stamped, consume,
  finalize, finalize_all, is_due, taken, left, sweep_shard, sweep, tick, flush_all, shed,
}
use tracing_bot.Sampler.Assembly.Runs.{
  Call, consuming, ticking, flushing, apply, run, sweep_shard-Finalizes,
}
use tracing_bot.Sampler.Assembly.Isolation.Filed.{
  Law, IsOwn, IsClean, IsFiled, AllFiled, with_span-IsClean, find-IsFiled, store-AllFiled,
  taken-IsClean, left-AllFiled,
}

-- The invariant of a manager.
pub record IsSound (W : Law) (m : Manager) : Type 0 where
  pub filed : (i : ℕ) → AllFiled W (m.shards i)
  pub clean : All (IsClean W) m.traces

set_at-AllFiled :
    (W : Law) (i : ℕ) (b : Buffer) (f : ℕ → Buffer)
    → AllFiled W b
    → ((j : ℕ) → AllFiled W (f j))
    → (j : ℕ) → AllFiled W (set_at i b f j)
set_at-AllFiled W i b f h g j = elim (Bool-cases (i == j)) [
  | inl here ↦ rw here h
  | inr there ↦ rw there (g j)
]

or_open-IsFiled :
    (W : Law) (m : Manager) (now : ℕ) (k : TraceKey) (b : Buffer)
    → AllFiled W b
    → IsFiled W k (or_open m now k (find k b))
or_open-IsFiled W m now k b h = elim (Option-cases (find k b)) [
  | inl missing ↦ rw missing (record {
    tenant = refl;
    trace_id = refl;
    clean = record { own = tt; seen = refl; distinct = tt };
  })
  | inr (t, found) ↦ rw found (find-IsFiled W k b t h found)
]

consume_stamped-IsSound :
    (W : Law) (d : Deps) (now : ℕ) (m : Manager) (k : TraceKey) (s : Span)
    → IsSound W m
    → W k.tenant s
    → s.tenant ≡ k.tenant
    → s.trace_id ≡ k.trace_id
    → IsSound W (consume_stamped d now m k s)
unfolding consume_stamped
consume_stamped-IsSound W d now m k s i w e j =
    let at' = shard_for d.score s.trace_id m.last % suc m.last in
    let b = m.shards at' in
    let t = or_open m now k (find k b) in
    let f : IsFiled W k t = or_open-IsFiled W m now k b (i.filed at') in
    elim (Bool-cases (is_seen s t)) [
      | inl old ↦
          rw (old, consume_stamped)
            (record {
              filed =
                  set_at-AllFiled W at' (store k t b) m.shards
                    (store-AllFiled W k t b f (i.filed at')) i.filed;
              clean = i.clean;
            })
      | inr new ↦
          let u = with_span now s t in
          let g : IsFiled W k u = record {
            tenant = f.tenant;
            trace_id = f.trace_id;
            clean =
                with_span-IsClean W now s t f.clean
                  (subst (λ x. W x s) (sym f.tenant) w, e ∙ sym f.tenant, j ∙ sym f.trace_id) new;
          } in
          rw (new, consume_stamped)
            (record {
              filed =
                  set_at-AllFiled W at' (store k u b) m.shards
                    (store-AllFiled W k u b g (i.filed at')) i.filed;
              clean = i.clean;
            })
    ]

consume-IsSound :
    (W : Law) (d : Deps) (now : ℕ) (tid : String) (ss : List Span) (m : Manager)
    → IsSound W m
    → All (λ (s : Span). W tid (record s { tenant = tid })) ss
    → IsSound W (consume d now tid ss m)
unfolding consume
consume-IsSound W d now tid [] m i h = i
consume-IsSound W d now tid (s ∷ ss) m i h =
    consume-IsSound W d now tid ss _
      (consume_stamped-IsSound W d now m (record { tenant = tid; trace_id = s.trace_id })
        (stamped tid s) i h.0 refl refl)
      h.1

finalize_all-IsClean :
    (W : Law) (i : ℕ) (f : OpenTrace → Decision) (ts : List OpenTrace) (m : Manager)
    → All (IsClean W) ts
    → All (IsClean W) m.traces
    → All (IsClean W) (finalize_all i f ts m).traces
unfolding finalize_all finalize
finalize_all-IsClean W i f [] m h c = c
finalize_all-IsClean W i f (t ∷ ts) m h c = elim (Bool-cases (f t).keep) [
  | inl kept ↦
      finalize_all-IsClean W i f ts (finalize i (f t) t m) h.1
        (rw (kept, finalize) (All-append (IsClean W) m.traces (t ∷ []) c (h.0, tt)))
  | inr dropped ↦
      finalize_all-IsClean W i f ts (finalize i (f t) t m) h.1 (rw (dropped, finalize) c)
]

sweep_shard-IsSound :
    (W : Law) (i : ℕ) (f : OpenTrace → Bool) (c : OpenTrace → Decision) (m : Manager)
    → IsSound W m
    → IsSound W (sweep_shard i f c m)
unfolding sweep_shard
sweep_shard-IsSound W i f c m s = record {
  filed =
      subst (λ (h : ℕ → Buffer). (j : ℕ) → AllFiled W (h j))
        (sym (sweep_shard-Finalizes i f c m).shards)
        (set_at-AllFiled W i (left f (m.shards i)) m.shards
          (left-AllFiled W f (m.shards i) (s.filed i)) s.filed);
  clean =
      finalize_all-IsClean W i c (taken f (m.shards i)) _
        (taken-IsClean W f (m.shards i) (s.filed i)) s.clean;
}

sweep-IsSound :
    (W : Law) (k : ℕ) (f : OpenTrace → Bool) (c : OpenTrace → Decision) (m : Manager)
    → IsSound W m
    → IsSound W (sweep k f c m)
unfolding sweep
sweep-IsSound W zero f c m s = sweep_shard-IsSound W 0 f c m s
sweep-IsSound W (suc k) f c m s =
    sweep_shard-IsSound W (suc k) f c (sweep k f c m) (sweep-IsSound W k f c m s)

-- The spans that a call delivers obey the law, once they have the tenant of the call.
abbrev Feeds : Law → Call → Type 0
Feeds W (consuming d now tid ss) = All (λ (s : Span). W tid (record s { tenant = tid })) ss
Feeds W _ = Unit

apply-IsSound : (W : Law) (m : Manager) (c : Call) → IsSound W m → Feeds W c → IsSound W (apply m c)
unfolding apply tick flush_all
apply-IsSound W m (consuming d now tid ss) s h = consume-IsSound W d now tid ss m s h
apply-IsSound W m (ticking d now) s h = sweep-IsSound W m.last (is_due m.cfg now) d.decide m s
apply-IsSound W m flushing s h = sweep-IsSound W m.last (λ t. true) shed m s

run-IsSound :
    (W : Law) (cs : List Call) (m : Manager) → IsSound W m → All (Feeds W) cs → IsSound W (run cs m)
unfolding run
run-IsSound W [] m s h = s
run-IsSound W (c ∷ cs) m s h = run-IsSound W cs (apply m c) (apply-IsSound W m c s h.0) h.1

new_manager-IsSound : (W : Law) (cfg : AssemblyConfig) (n : ℕ) → IsSound W (new_manager cfg n)
unfolding new_manager
new_manager-IsSound W cfg n = record { filed = λ i. tt; clean = tt }

-- A span is one of the batch of a call of Consume for the tenant, but for its tenant field, which is
-- that tenant.
pub record WasConsumed (cs : List Call) (tid : String) (s : Span) : Type 0 where
  pub deps : Deps
  pub now : ℕ
  pub batch : List Span
  pub original : Span
  pub called : Memᴰ (consuming deps now tid batch) cs
  pub sent : Memᴰ original batch
  pub restamped : s ≡ record original { tenant = tid }

All-of_Mem : {A : Type 0} (P : A → Type 0) (xs : List A) → ((x : A) → Memᴰ x xs → P x) → All P xs
All-of_Mem P [] f = tt
All-of_Mem P (x ∷ xs) f = (f x (Memᴰ.head refl), All-of_Mem P xs (λ y i. f y (Memᴰ.tail i)))

Feeds-Mem : (cs : List Call) (c : Call) → Memᴰ c cs → Feeds (WasConsumed cs) c
Feeds-Mem cs (consuming d now tid ss) i =
    All-of_Mem (λ (s : Span). WasConsumed cs tid (record s { tenant = tid })) ss
      (λ s j. record {
        deps = d;
        now = now;
        batch = ss;
        original = s;
        called = i;
        sent = j;
        restamped = refl;
      })
Feeds-Mem cs (ticking d now) i = tt
Feeds-Mem cs flushing i = tt

-- After any calls of a new manager, every span of every trace that was emitted is one of the batch of a
-- call of Consume for the trace's tenant, with that tenant in place of the one that it arrived with;
-- its trace id is the trace's, and no two spans of the trace have one span id.
pub traces-run :
    (cfg : AssemblyConfig) (n : ℕ) (cs : List Call)
    → All (IsClean (WasConsumed cs)) (run cs (new_manager cfg n)).traces
traces-run cfg n cs =
    (run-IsSound (WasConsumed cs) cs (new_manager cfg n) (new_manager-IsSound _ cfg n)
      (All-of_Mem (Feeds (WasConsumed cs)) cs (Feeds-Mem cs))).clean
