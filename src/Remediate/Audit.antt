-- ===== src/Remediate/Audit.antt =====
-- internal/remediate/audit.go: the append-only, hash-chained audit log. SHA-256 is the parameter
-- `sha`, a function on byte strings.
pub mod Chain
pub mod Verify
pub mod Tamper
use tracing_bot.Prelude.{
  ℕ, ◌+◌, ◌-◌, ◌*◌, ◌%◌, ◌^◌, String, Bool, ◌&&◌, ◌||◌, not, Option, none, some, List, [], ◌∷◌,
  ◌++◌, ltb, leb, ◌==◌, str_eq, if◌then◌else◌,
}
use tracing_bot.Prelude.Assoc.{Assoc, lookup, put}
use tracing_bot.Prelude.Bytes.{Bytes, utf8, be64, bytes_eq}
use tracing_bot.Remediate.Types.{Time, TenantId, Result, ok, err, not_found}

-- `auth.Event`.
pub record Event : Type 0 where
  pub tenant : TenantId
  pub actor : String
  pub action : String
  pub payload : Bytes
  pub timestamp : Time

pub record StoredEvent : Type 0 where
  pub seq : ℕ
  pub tenant : TenantId
  pub event : Event
  pub prev_hash : Bytes
  pub hash : Bytes

-- `InMemoryAuditLog`.
pub record AuditLog : Type 0 where
  pub entries : List StoredEvent
  pub seqs : Assoc ℕ

unfoldable pub new_audit_log : AuditLog
new_audit_log = record { entries = []; seqs = [] }

-- `auth.Receipt`, `auth.VerifyReport`, `auth.Anchor` and `auth.Filter`.
pub record Receipt : Type 0 where
  pub seq : ℕ
  pub hash : Bytes

pub data VerifyReport : Type 0 where
  intact : VerifyReport
  broken_at : ℕ → VerifyReport

pub record Anchor : Type 0 where
  pub seq : ℕ
  pub hash : Bytes
  pub anchored_at : Time

pub record Filter : Type 0 where
  pub from : Time
  pub to : Time
  pub actor : String
  pub action : String

-- Nanoseconds from Go's zero time to 1970.
abbrev epoch : ℕ
epoch = 62_135_596_800 * 10 ^ 9

-- `uint64(t.UnixNano())`.
pub unix_nano : Time → ℕ
unix_nano t = (t + 4 * 2 ^ 64 - epoch) % 2 ^ 64

-- What `chainHash` writes of the event between the sequence number and the time.
abbrev pub event_bytes : Event → Bytes
event_bytes e = utf8 e.tenant ++ (utf8 e.actor ++ (utf8 e.action ++ e.payload))

-- What `chainHash` writes to the digest.
pub preimage : Bytes → ℕ → Event → Bytes
unfolding unix_nano
preimage prev seq e = prev ++ (be64 seq ++ (event_bytes e ++ be64 (unix_nano e.timestamp)))

-- A missing entry of the Go map counts as 0.
abbrev pub seq_of : Option ℕ → ℕ
seq_of none = 0
seq_of (some n) = n

-- The hash of the last entry of a tenant; the slice is empty where there is none.
pub last_hash : TenantId → Bytes → List StoredEvent → Bytes
last_hash tid prev [] = prev
last_hash tid prev (se ∷ rest) = last_hash tid (if str_eq se.tenant tid then se.hash else prev) rest

module _ (sha : Bytes → Bytes) where
  unfoldable pub chain_hash : Bytes → ℕ → Event → Bytes
  unfolding preimage
  chain_hash prev seq e = sha (preimage prev seq e)

  -- The entry that `Append` builds.
  abbrev pub next_entry : AuditLog → Event → StoredEvent
  next_entry l e =
      let seq = seq_of (lookup e.tenant l.seqs) + 1 in
      let prev = last_hash e.tenant [] l.entries in
      record {
        seq = seq;
        tenant = e.tenant;
        event = e;
        prev_hash = prev;
        hash = chain_hash prev seq e;
      }

  unfoldable pub append : AuditLog → Event → AuditLog × Receipt
  unfolding chain_hash last_hash
  append l e =
      let stored = next_entry l e in
      (
        record { entries = l.entries ++ stored ∷ []; seqs = put e.tenant stored.seq l.seqs },
        record { seq = stored.seq; hash = stored.hash },
      )

  -- Whether the second loop of `VerifyChain` skips an entry; `to = 0` is no upper end.
  abbrev pub skipped : TenantId → ℕ → ℕ → StoredEvent → Bool
  skipped tid from to se =
      not (str_eq se.tenant tid) || ltb se.seq from || ltb 0 to && leb to se.seq

  pub verify_loop : TenantId → ℕ → ℕ → Bytes → List StoredEvent → VerifyReport
  unfolding chain_hash
  verify_loop tid from to prev [] = intact
  verify_loop tid from to prev (se ∷ rest) =
      let skip = verify_loop tid from to prev rest in
      let go_on = verify_loop tid from to se.hash rest in
      if skipped tid from to se
      then skip
      else if bytes_eq (chain_hash prev se.seq se.event) se.hash
      then go_on
      else broken_at se.seq

-- The first loop of `VerifyChain`: the stored hash of the entry just before `from`.
pub seed : TenantId → ℕ → Bytes → List StoredEvent → Bytes
seed tid from prev [] = prev
seed tid from prev (se ∷ rest) =
    seed tid from (if str_eq se.tenant tid && (se.seq + 1) == from then se.hash else prev) rest

-- `from` and `to` are taken to be at least 0; a negative one behaves as 0.
unfoldable pub verify_chain : (Bytes → Bytes) → AuditLog → TenantId → ℕ → ℕ → VerifyReport
unfolding verify_loop seed
verify_chain sha l tid from to = verify_loop sha tid from to (seed tid from [] l.entries) l.entries

abbrev keep_last : TenantId → Option StoredEvent → List StoredEvent → Option StoredEvent
keep_last tid last [] = last
keep_last tid last (se ∷ rest) = keep_last tid (if str_eq se.tenant tid then some se else last) rest

abbrev to_anchor : Option StoredEvent → Result Anchor
to_anchor none = err not_found
to_anchor (some se) = ok (record { seq = se.seq; hash = se.hash; anchored_at = se.event.timestamp })

unfoldable pub anchor : AuditLog → TenantId → Result Anchor
anchor l tid = to_anchor (keep_last tid none l.entries)

-- Whether `Query`'s loop takes an entry. A time of 0 is the zero time, which sets no bound.
abbrev pub selected : TenantId → Filter → StoredEvent → Bool
selected tid f se =
    str_eq se.tenant tid
    && (str_eq f.actor "" || str_eq se.event.actor f.actor)
    && (str_eq f.action "" || str_eq se.event.action f.action)
    && not (not (f.from == 0) && ltb se.event.timestamp f.from)
    && not (not (f.to == 0) && ltb f.to se.event.timestamp)

collect : TenantId → Filter → List StoredEvent → List Event
collect tid f [] = []
collect tid f (se ∷ rest) =
    let out = collect tid f rest in if selected tid f se then se.event ∷ out else out

-- `sort.Slice` by time, as an insertion sort (the order of equal times is not promised).
insert_by_time : Event → List Event → List Event
insert_by_time e [] = e ∷ []
insert_by_time e (x ∷ xs) =
    let later = insert_by_time e xs in if ltb x.timestamp e.timestamp then x ∷ later else e ∷ x ∷ xs

sort_by_time : List Event → List Event
unfolding insert_by_time
sort_by_time [] = []
sort_by_time (e ∷ es) = insert_by_time e (sort_by_time es)

unfoldable pub query : AuditLog → TenantId → Filter → List Event
unfolding collect sort_by_time
query l tid f = sort_by_time (collect tid f l.entries)

-- `tamperForTest`: the payload of a stored entry is replaced and its hash is left.
pub tamper_entries : TenantId → ℕ → Bytes → List StoredEvent → List StoredEvent
tamper_entries tid seq new_payload [] = []
tamper_entries tid seq new_payload (se ∷ rest) =
    (if str_eq se.tenant tid && se.seq == seq
      then record se { event = record se.event { payload = new_payload } }
      else se)
    ∷ tamper_entries tid seq new_payload rest

unfoldable pub tamper_for_test : AuditLog → TenantId → ℕ → Bytes → AuditLog
unfolding tamper_entries
tamper_for_test l tid seq new_payload = record l {
  entries = tamper_entries tid seq new_payload l.entries;
}
