-- ===== src/Platform/Outbox/Retries.antt =====
-- The life of a message under the dispatcher of outbox_dispatcher.py.
use property_community_agent.Base.{
  ℕ, ◌+◌, ◌≤◌, ◌<◌, ◌≡◌, ◌⊎◌, inl, inr, Bool, true, false, some, ◌==◌, leb, refl, ◌∙◌, any,
  All-weaken, All-take, List, [], ◌∷◌, find, update_first, count_where, arith, All, length,
  Bool-cases, ◌↔◌, any-count_where, select, if◌then◌else◌, count_where-append,
}
use property_community_agent.Platform.Tables.{
  Message, pending, failed, HandoverTicket, User, PlatformDb,
}
use property_community_agent.Platform.Outbox.{
  Delivery, delivered, refused, raised, attempt, has_message_id, dispatch, dispatch_all,
  insert_by_created, sort_by_created, is_pending, process_batch, ensure_manual_handover,
  get_pending, retry_due, is_ticket_for, is_user, message_ticket,
}

-- A message waits while it has tries left, and is given up when it has none.
pub record IsLive (max_retry : ℕ) (m : Message) : Type 0 where
  pub waits : m.status ≡ pending → m.retry_count < max_retry
  pub given_up : m.status ≡ failed → max_retry ≤ m.retry_count

attempt-IsLive :
    (max_retry now : ℕ) (d : Delivery) (m : Message)
    → IsLive max_retry m
    → IsLive max_retry (attempt max_retry now d m)
attempt-IsLive max_retry now delivered m h = ground arith
attempt-IsLive max_retry now refused m h = ground arith
attempt-IsLive max_retry now (raised e) m h = ground arith

All-update_first :
    {A : Type 0} (P : A → Type 0) (q : A → Bool) (f : A → A) (xs : List A)
    → ((x : A) → P x → P (f x))
    → All P xs
    → All P (update_first q f xs)
All-update_first P q f [] k h = tt
All-update_first P q f (x ∷ xs) k (h, hs) = elim (Bool-cases (q x)) [
  | inl y ↦ rw y (k x h, hs)
  | inr n ↦ rw n (h, All-update_first P q f xs k hs)
]

module _ (max_retry now : ℕ) (ticket_id : ℕ → ℕ) (send : Message → Delivery) where
  dispatch_all-IsLive :
      (ms : List Message) (s : PlatformDb)
      → All (IsLive max_retry) s.messages
      → All (IsLive max_retry) (dispatch_all max_retry now ticket_id send ms s).messages
  unfolding dispatch_all
  dispatch_all-IsLive [] s h = h
  dispatch_all-IsLive (m ∷ ms) s h =
      dispatch_all-IsLive ms (dispatch max_retry now ticket_id send m s) (
        All-update_first (IsLive max_retry) (has_message_id m.id) (attempt max_retry now (send m))
          s.messages (attempt-IsLive max_retry now (send m)) h)

-- The tries of all messages.
abbrev pub total_retries : List Message → ℕ
total_retries [] = 0
total_retries (m ∷ ms) = m.retry_count + total_retries ms

abbrev pub fails : Delivery → Bool
fails delivered = false
fails _ = true

abbrev IsKnown : List Message → Message → Type 0
IsKnown t m = any (has_message_id m.id) t ≡ true

self_known : (m : Message) → (m.id == m.id) ≡ true
self_known m = ground arith

rows-IsKnown : (t : List Message) → All (IsKnown t) t
rows-IsKnown [] = tt
rows-IsKnown (m ∷ t) = (
  ground arith,
  All-weaken (IsKnown t) (IsKnown (m ∷ t)) t (λ x h. ground arith) (rows-IsKnown t),
)

module _ (P : Message → Type 0) where
  All-insert_by_created :
      (m : Message) (xs : List Message) → P m → All P xs → All P (insert_by_created m xs)
  unfolding insert_by_created
  All-insert_by_created m [] h hs = (h, tt)
  All-insert_by_created m (x ∷ xs) h (k, ks) = elim (Bool-cases (leb m.created_at x.created_at)) [
    | inl e ↦ rw e (h, (k, ks))
    | inr e ↦ rw e (k, All-insert_by_created m xs h ks)
  ]

  All-sort_by_created : (xs : List Message) → All P xs → All P (sort_by_created xs)
  unfolding sort_by_created
  All-sort_by_created [] h = tt
  All-sort_by_created (x ∷ xs) (h, hs) =
      All-insert_by_created x (sort_by_created xs) h (All-sort_by_created xs hs)

  All-kept : (q : Message → Bool) (xs : List Message) → All P xs → All P (select q xs)
  All-kept q [] h = tt
  All-kept q (x ∷ xs) (h, hs) = elim (Bool-cases (q x)) [
    | inl e ↦ rw e (h, All-kept q xs hs)
    | inr e ↦ rw e (All-kept q xs hs)
  ]

pending-IsKnown : (n : ℕ) (t : List Message) → All (IsKnown t) (get_pending n t)
unfolding get_pending
pending-IsKnown n t = All-take (IsKnown t) n (sort_by_created (select is_pending t)) (
    All-sort_by_created (IsKnown t) (select is_pending t)
      (All-kept (IsKnown t) is_pending t (rows-IsKnown t)))

-- The messages of a batch that are tried.
abbrev pub due : ℕ → Bool → ℕ → List Message → List Message
due now respect_backoff batch_size t =
    if respect_backoff
    then select (retry_due now) (get_pending batch_size t)
    else get_pending batch_size t

due-IsKnown :
    (now : ℕ) (respect_backoff : Bool) (batch_size : ℕ) (t : List Message)
    → All (IsKnown t) (due now respect_backoff batch_size t)
due-IsKnown now true batch_size t =
    All-kept (IsKnown t) (retry_due now) (get_pending batch_size t) (pending-IsKnown batch_size t)
due-IsKnown now false batch_size t = pending-IsKnown batch_size t

module _ (max_retry now : ℕ) (d : Delivery) where
  attempt-count :
      (m : Message)
      → ((attempt max_retry now d m).retry_count ≡ m.retry_count + (if fails d then 1 else 0))
        × ((attempt max_retry now d m).id ≡ m.id)
  attempt-count m = (ground arith, ground arith)

  update-total :
      (q : Message → Bool) (t : List Message)
      → any q t ≡ true
      → total_retries (update_first q (attempt max_retry now d) t)
        ≡ total_retries t + (if fails d then 1 else 0)
  update-total q [] h = cc
  update-total q (m ∷ t) h = elim (Bool-cases (q m)) [
    | inl e ↦ ground (arith, attempt-count m)
    | inr e ↦ ground (arith, update-total q t)
  ]

  update-IsKnown :
      (i : ℕ) (q : Message → Bool) (t : List Message)
      → any (has_message_id i) (update_first q (attempt max_retry now d) t)
        ≡ any (has_message_id i) t
  update-IsKnown i q [] = refl
  update-IsKnown i q (m ∷ t) = elim (Bool-cases (q m)) [
    | inl e ↦ ground (arith, attempt-count m)
    | inr e ↦ ground (arith, update-IsKnown i q t)
  ]

module _ (max_retry now : ℕ) (ticket_id : ℕ → ℕ) (send : Message → Delivery) where
  dispatch_all-total :
      (ms : List Message) (s : PlatformDb)
      → All (IsKnown s.messages) ms
      → total_retries (dispatch_all max_retry now ticket_id send ms s).messages
        ≡ total_retries s.messages + count_where (λ m. fails (send m)) ms
  unfolding dispatch_all
  dispatch_all-total [] s h = omega arith
  dispatch_all-total (m ∷ ms) s (h, hs) =
      let s' = dispatch max_retry now ticket_id send m s in
      let known =
        All-weaken (IsKnown s.messages) (IsKnown s'.messages) ms
          (λ x k. update-IsKnown max_retry now (send m) x.id (has_message_id m.id) s.messages ∙ k)
          hs in
      ground (
        arith,
        dispatch_all-total ms s' known,
        update-total max_retry now (send m) (has_message_id m.id) s.messages h,
      )

  -- If before a batch every waiting message had tries left and every message given up had used them
  -- all, then so it is after it, whatever the callback does. The batch counts exactly its failures:
  -- together the messages have as many tries more as the callback fails for messages of the batch. The
  -- call returns the size of the batch.
  pub process_batch-IsLive :
      (respect_backoff : Bool) (batch_size : ℕ) (s : PlatformDb)
      → All (IsLive max_retry) s.messages
      → let r = process_batch max_retry now ticket_id send respect_backoff batch_size s in
        let tried = due now respect_backoff batch_size s.messages in
        All (IsLive max_retry) r.1.messages
        × (total_retries r.1.messages
            ≡ total_retries s.messages + count_where (λ m. fails (send m)) tried)
        × (r.0 ≡ length tried)
  unfolding process_batch
  process_batch-IsLive respect_backoff batch_size s h =
      let tried = due now respect_backoff batch_size s.messages in
      (
        dispatch_all-IsLive max_retry now ticket_id send tried s h,
        dispatch_all-total tried s (due-IsKnown now respect_backoff batch_size s.messages),
        refl,
      )

-- Failed deliveries, one after another.
abbrev pub IsFailure : Delivery → Type 0
IsFailure delivered = ⊥
IsFailure refused = Unit
IsFailure (raised _) = Unit

pub attempts : ℕ → List (ℕ × Delivery) → Message → Message
attempts max_retry [] m = m
attempts max_retry ((now, d) ∷ ds) m = attempts max_retry ds (attempt max_retry now d m)

attempts-retry_count :
    (max_retry : ℕ) (ds : List (ℕ × Delivery)) (m : Message)
    → All (λ e. IsFailure e.1) ds
    → (attempts max_retry ds m).retry_count ≡ m.retry_count + length ds
unfolding attempts
attempts-retry_count max_retry [] m h = omega arith
attempts-retry_count max_retry ((now, delivered) ∷ ds) m h = absurd h.0
attempts-retry_count max_retry ((now, refused) ∷ ds) m h =
    ground (arith, attempts-retry_count max_retry ds (attempt max_retry now refused m) h.1)
attempts-retry_count max_retry ((now, raised e) ∷ ds) m h =
    ground (arith, attempts-retry_count max_retry ds (attempt max_retry now (raised e) m) h.1)

-- A message waits or is given up, by its count.
abbrev IsSettled : ℕ → Message → Type 0
IsSettled max_retry m =
    ((m.status ≡ pending) × (m.retry_count < max_retry))
    ⊎ ((m.status ≡ failed) × (max_retry ≤ m.retry_count))

attempt-IsSettled :
    (max_retry now : ℕ) (d : Delivery) (m : Message)
    → IsFailure d
    → IsSettled max_retry m
    → IsSettled max_retry (attempt max_retry now d m)
attempt-IsSettled max_retry now delivered m f h = absurd f
attempt-IsSettled max_retry now refused m f h = ground arith
attempt-IsSettled max_retry now (raised e) m f h = ground arith

attempts-IsSettled :
    (max_retry : ℕ) (ds : List (ℕ × Delivery)) (m : Message)
    → All (λ e. IsFailure e.1) ds
    → IsSettled max_retry m
    → IsSettled max_retry (attempts max_retry ds m)
unfolding attempts
attempts-IsSettled max_retry [] m f h = h
attempts-IsSettled max_retry ((now, d) ∷ ds) m f h =
    attempts-IsSettled max_retry ds (attempt max_retry now d m) f.1
      (attempt-IsSettled max_retry now d m f.0 h)

-- A new message whose deliveries all fail is given up by the try that reaches the maximum, and by
-- no earlier one.
pub given_up_at_max :
    (max_retry : ℕ) (ds : List (ℕ × Delivery)) (m : Message)
    → 0 < max_retry
    → m.status ≡ pending
    → m.retry_count ≡ 0
    → All (λ e. IsFailure e.1) ds
    → ((attempts max_retry ds m).status ≡ failed) ↔ (max_retry ≤ length ds)
given_up_at_max max_retry ds m positive p z f =
    let n = attempts-retry_count max_retry ds m f in
    let h = attempts-IsSettled max_retry ds m f (inl (p, omega arith)) in
    (
      (λ (e : (attempts max_retry ds m).status ≡ failed). ground arith),
      (λ (l : max_retry ≤ length ds). ground arith),
    )

-- A message that is given up gets one ticket for manual work, and never a second, if its receiver
-- exists.
pub ensure_manual_handover_once :
    (new_id : ℕ) (m : Message) (users : List User) (t : List HandoverTicket) {receiver : User}
    → find (is_user m.receiver_id) users ≡ some receiver
    → count_where (is_ticket_for m.id) t ≤ 1
    → count_where (is_ticket_for m.id) (ensure_manual_handover new_id m users t) ≡ 1
unfolding ensure_manual_handover
ensure_manual_handover_once new_id m users t {receiver} e h = ground (
  arith,
  any-count_where (is_ticket_for m.id) t,
  count_where-append (is_ticket_for m.id) t (message_ticket new_id m receiver ∷ []),
)
