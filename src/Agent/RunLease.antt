-- ===== src/Agent/RunLease.antt =====
-- src/property_agent/agent/infrastructure/run_lease.py: the leases of the agent's turns, one row for
-- a conversation (the primary key). The statements that RunLeaseService sends are read as functions
-- of the table. A time to live is given in microseconds.
pub mod Holding
pub mod Fencing
use property_community_agent.Base.{
  ℕ, ◌+◌, ◌-◌, String, Bool, true, false, ◌&&◌, Option, none, some, List, [], ◌∷◌, ◌++◌, ltb, leb,
  ◌==◌, if◌then◌else◌, str_eq, any, find, update_first, update_where, Result, ok, err,
}
use property_community_agent.Platform.Tables.{RunLease}
use property_community_agent.Platform.Outbox.{microseconds_per_second}
use property_community_agent.Platform.ConfirmationPort.{Lease, lease_matches}

pub data LeaseError : Type 0 where
  conversation_busy stale_agent_run : LeaseError

abbrev pub Leases : Type 0
Leases = List RunLease

unfoldable pub is_thread : String → RunLease → Bool
is_thread thread r = str_eq r.thread_id thread

abbrev pub lease_of : RunLease → Lease
lease_of r = record { thread_id = r.thread_id; run_id = r.owner_run_id; fence = r.fence }

-- `DO UPDATE SET`.
abbrev pub take_over : ℕ → ℕ → RunLease → RunLease
take_over run until r = record r { owner_run_id = run; lease_until = until; fence = r.fence + 1 }

abbrev pub first_row : String → ℕ → ℕ → RunLease
first_row thread run until = record {
  thread_id = thread;
  owner_run_id = run;
  fence = 1;
  lease_until = until;
}

abbrev acquire_found :
    Option RunLease → ℕ → String → ℕ → ℕ → Leases → Result LeaseError (Lease × Leases)
acquire_found none ttl thread run now t =
    let r = first_row thread run (now + ttl) in ok (lease_of r, t ++ r ∷ [])
acquire_found (some r) ttl thread run now t =
    if ltb r.lease_until now
    then ok (
      lease_of (take_over run (now + ttl) r),
      update_first (is_thread thread) (take_over run (now + ttl)) t,
    )
    else err conversation_busy

-- `acquire`.
unfoldable pub acquire : ℕ → String → ℕ → ℕ → Leases → Result LeaseError (Lease × Leases)
acquire ttl thread run now t = acquire_found (find (is_thread thread) t) ttl thread run now t

abbrev pub extend : ℕ → RunLease → RunLease
extend until r = record r { lease_until = until }

-- `renew`.
unfoldable pub renew : ℕ → Lease → ℕ → Leases → Result LeaseError (Lease × Leases)
renew ttl l now t =
    if any (lease_matches l now) t
    then ok (l, update_where (lease_matches l now) (extend (now + ttl)) t)
    else err stale_agent_run

abbrev pub is_owned : String → ℕ → RunLease → Bool
is_owned thread run r = str_eq r.thread_id thread && r.owner_run_id == run

-- `release`: the row stays and its time is past. The clock reads more than a second.
unfoldable pub release : String → ℕ → ℕ → Leases → Leases
release thread run now t =
    update_where (is_owned thread run) (extend (now - microseconds_per_second)) t

abbrev pub is_live : String → ℕ → RunLease → Bool
is_live thread now r = is_thread thread r && leb now r.lease_until

-- `is_held`.
unfoldable pub is_held : String → ℕ → Leases → Bool
unfolding is_thread
is_held thread now t = any (is_live thread now) t
