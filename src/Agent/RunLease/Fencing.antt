-- ===== src/Agent/RunLease/Fencing.antt =====
-- One writer for a conversation: what the leases of run_lease.py and the check of agent_fence.py
-- promise under any sequence of requests.
use property_community_agent.Base.{
  ℕ, ◌+◌, ◌≤◌, ◌<◌, ◌≡◌, refl, sym, subst, inl, inr, String, true, false, List, [], ◌∷◌, eq_refl,
  any, count_where, ok, err, arith, find-holds, find-append_none, find-update_first, All,
}
use property_community_agent.Platform.Tables.{PlatformDb}
use property_community_agent.Platform.ConfirmationPort.{
  Lease, stale_agent_run, lease_matches, assert_run_fence,
}
use property_community_agent.Agent.RunLease.{
  conversation_busy, Leases, is_thread, take_over, first_row, acquire,
}
use property_community_agent.Agent.RunLease.Holding.{
  LeaseRequest, handle_requests, acquire-ok, acquire-Held, acquire-above, handle_requests-Held,
}

none_matches :
    (l : Lease) (now fence : ℕ) (t : Leases)
    → l.fence < fence
    → All (λ r. is_thread l.thread_id r ≡ true → fence ≤ r.fence) t
    → any (lease_matches l now) t ≡ false
unfolding is_thread
none_matches l now fence [] low h = refl
none_matches l now fence (r ∷ t) low (k, ks) = ground (arith, k, none_matches l now fence t low ks)

-- Once another turn has taken a conversation over, the lease of the turn before never passes the
-- check of a business write again, whatever requests came between and come after, at any time, if
-- the table had at most one row for the conversation.
pub fenced_out :
    (thread : String) (ttl ttl2 run run2 now now2 later : ℕ) (between after : List LeaseRequest)
    (s : PlatformDb) (t : Leases) {l l2 : Lease} {t1 t2 : Leases}
    → count_where (is_thread thread) t ≤ 1
    → acquire ttl thread run now t ≡ ok (l, t1)
    → acquire ttl2 thread run2 now2 (handle_requests between t1) ≡ ok (l2, t2)
    → s.run_leases ≡ handle_requests after t2
    → assert_run_fence l later s
      ≡ err (stale_agent_run "fence check failed (expired, preempted, or mismatched)")
unfolding assert_run_fence
fenced_out thread ttl ttl2 run run2 now now2 later between after s t {l} {l2} {t1} {t2} unique h h2
      e =
    let (held, same) = acquire-Held ttl thread run now t {l = l} {t' = t1} h unique in
    let held_between = handle_requests-Held between thread l.fence t1 held in
    let above =
      acquire-above ttl2 thread run2 now2 l.fence (handle_requests between t1) {l = l2} {t' = t2} h2
        held_between in
    let unique2 : count_where (is_thread thread) (handle_requests between t1) ≤ 1 =
      omega (arith, held_between.0) in
    let (held2, _) =
      acquire-Held ttl2 thread run2 now2 (handle_requests between t1) {l = l2} {t' = t2} h2
        unique2 in
    let held_after = handle_requests-Held after thread l2.fence t2 held2 in
    let stale : any (lease_matches l later) s.run_leases ≡ false =
      subst (λ (rows : Leases). any (lease_matches l later) rows ≡ false) (sym e)
        (none_matches l later l2.fence (handle_requests after t2) above (
          subst
            (λ (x : String).
              All (λ r. is_thread x r ≡ true → l2.fence ≤ r.fence) (handle_requests after t2))
            (sym same) held_after.1)) in
    ground arith

-- Right after a turn has acquired a conversation, and as long as its lease runs, an acquisition of
-- the conversation is refused as busy.
pub acquire_exclusive :
    (thread : String) (ttl ttl2 run run2 now now2 : ℕ) (t : Leases) {l : Lease} {t1 : Leases}
    → acquire ttl thread run now t ≡ ok (l, t1)
    → now2 ≤ now + ttl
    → acquire ttl2 thread run2 now2 t1 ≡ err conversation_busy
unfolding acquire is_thread
acquire_exclusive thread ttl ttl2 run run2 now now2 t {l} {t1} h in_time =
    elim (acquire-ok ttl thread run now t {l = l} {t' = t1} h) [
      | inl (e, lease, rows) ↦ ground (
        arith,
        find-append_none (is_thread thread) t (first_row thread run (now + ttl) ∷ []),
        eq_refl thread,
      )
      | inr (r, e, late, lease, rows) ↦ ground (
        arith,
        find-update_first (is_thread thread) (take_over run (now + ttl)) t {m = r} e,
        find-holds (is_thread thread) t e,
      )
    ]
