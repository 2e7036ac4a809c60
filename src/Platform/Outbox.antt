-- ===== src/Platform/Outbox.antt =====
-- src/property_agent/platform/infrastructure/outbox_dispatcher.py: the transactional outbox
-- (MessageOutboxService) and its dispatcher. SHA-256 is the argument `sha256_hex`, the delivery
-- callback is `send`, fresh identifiers are arguments, seconds are the unit of the backoff.
pub mod Enqueueing
pub mod Retries
use property_community_agent.Base.{
  ℕ, zero, suc, ◌+◌, ◌*◌, ◌^◌, String, Bool, true, false, ◌&&◌, Option, none, some, List, [], ◌∷◌,
  ◌++◌, ltb, leb, ◌==◌, if◌then◌else◌, str_eq, is_some, find, select, take, any, update_first,
  length, Text, chars, text_eq, is_id,
}
use property_community_agent.Platform.Tables.{
  Message, MessageStatus, pending, sent, failed, HandoverTicket, User, PlatformDb,
}

abbrev pub max_retry_count : ℕ
max_retry_count = 5

abbrev pub microseconds_per_second : ℕ
microseconds_per_second = 1000000

pub record Notice : Type 0 where
  pub receiver_id : ℕ
  pub business_type : String
  pub resource_id : Text
  pub title : String
  pub body : String
  pub idempotency_key : Text

abbrev pub new_message : ℕ → ℕ → Text → Notice → Message
new_message new_id now key n = record {
  id = new_id;
  receiver_id = n.receiver_id;
  business_type = n.business_type;
  resource_id = n.resource_id;
  title = n.title;
  body = n.body;
  status = pending;
  read_at = none;
  retry_count = 0;
  last_error = none;
  idempotency_key = key;
  created_at = now;
  updated_at = now;
}

abbrev pub has_message_key : Text → Message → Bool
has_message_key key m = text_eq m.idempotency_key key

module _ (sha256_hex : Text → Text) where
  -- The column holds 128 characters.
  unfoldable pub storage_key : Text → Text
  storage_key key = if ltb 128 (length key) then chars "sha256:" ++ sha256_hex key else key

  abbrev enqueue_found : Option Message → ℕ → ℕ → Notice → List Message → ℕ × List Message
  enqueue_found (some m) new_id now n t = (m.id, t)
  enqueue_found none new_id now n t =
      (new_id, t ++ new_message new_id now (storage_key n.idempotency_key) n ∷ [])

  -- `MessageOutboxService.enqueue`.
  unfoldable pub enqueue : ℕ → ℕ → Notice → List Message → ℕ × List Message
  enqueue new_id now n t =
      enqueue_found (find (has_message_key (storage_key n.idempotency_key)) t) new_id now n t

abbrev pub is_pending : Message → Bool
is_pending m = elim m.status [ pending ↦ true | _ ↦ false ]

-- `ORDER BY created_at`.
unfoldable pub insert_by_created : Message → List Message → List Message
insert_by_created m [] = m ∷ []
insert_by_created m (x ∷ xs) =
    let rest = insert_by_created m xs in
    if leb m.created_at x.created_at then m ∷ x ∷ xs else x ∷ rest

unfoldable pub sort_by_created : List Message → List Message
unfolding insert_by_created
sort_by_created [] = []
sort_by_created (m ∷ ms) = insert_by_created m (sort_by_created ms)

-- `get_pending`, and the query of a batch.
unfoldable pub get_pending : ℕ → List Message → List Message
unfolding sort_by_created
get_pending limit t = take limit (sort_by_created (select is_pending t))

unfoldable pub get_backoff_delay : ℕ → ℕ
get_backoff_delay retry_count = 2 ^ retry_count * 2

unfoldable pub retry_due : ℕ → Message → Bool
unfolding get_backoff_delay
retry_due now m =
    if m.retry_count == 0
    then true
    else leb (m.updated_at + get_backoff_delay m.retry_count * microseconds_per_second) now

-- `_ensure_manual_handover`.
abbrev pub is_ticket_for : ℕ → HandoverTicket → Bool
is_ticket_for message_id h = str_eq h.resource_type "MESSAGE" && is_id h.resource_id message_id

unfoldable pub queue_by_business : String → String
queue_by_business b =
    if str_eq b "REPAIR"
    then "REPAIR"
    else if str_eq b "INSPECTION"
    then "SECURITY"
    else if str_eq b "ANNOUNCEMENT"
    then "MANAGEMENT"
    else "CUSTOMER_SERVICE"

abbrev pub message_ticket : ℕ → Message → User → HandoverTicket
message_ticket new_id m receiver = record {
  id = new_id;
  community_id = receiver.community_id;
  requester_id = some m.receiver_id;
  resource_type = "MESSAGE";
  resource_id = some m.id;
  source = m.business_type;
  queue = queue_by_business m.business_type;
  reason = "MESSAGE_DELIVERY_FAILED";
  status = "PENDING";
}

abbrev handover_to : Option User → ℕ → Message → List HandoverTicket → List HandoverTicket
handover_to none new_id m t = t
handover_to (some receiver) new_id m t = t ++ message_ticket new_id m receiver ∷ []

abbrev pub is_user : ℕ → User → Bool
is_user i u = u.id == i

unfoldable pub ensure_manual_handover :
    ℕ → Message → List User → List HandoverTicket → List HandoverTicket
unfolding queue_by_business
ensure_manual_handover new_id m users t =
    if any (is_ticket_for m.id) t
    then t
    else handover_to (find (is_user m.receiver_id) users) new_id m t

-- `_mark_sent`; `MessageOutboxService.mark_sent` does the same.
abbrev pub mark_sent : ℕ → Message → Message
mark_sent now m = record m { status = sent; updated_at = now }

-- The row part of `_mark_retry` and of `MessageOutboxService.mark_failed`.
abbrev pub mark_retry : ℕ → String → ℕ → Message → Message
mark_retry max_retry error now m =
    let m' = record m {
      retry_count = m.retry_count + 1;
      last_error = some error;
      updated_at = now;
    } in
    if leb max_retry m'.retry_count then record m' { status = failed } else m'

-- `MessageOutboxService.mark_read`.
unfoldable pub mark_read : ℕ → Message → Message
mark_read now m = if is_some m.read_at then m else record m { read_at = some now; updated_at = now }

-- What the delivery callback does: it returns a truth value, or raises with a traceback.
pub data Delivery : Type 0 where
  delivered refused : Delivery
  raised : String → Delivery

abbrev pub attempt : ℕ → ℕ → Delivery → Message → Message
attempt max_retry now delivered m = mark_sent now m
attempt max_retry now refused m = mark_retry max_retry "send_message returned False" now m
attempt max_retry now (raised error) m = mark_retry max_retry error now m

abbrev pub has_message_id : ℕ → Message → Bool
has_message_id i m = m.id == i

abbrev gives_up : Message → Bool
gives_up m = elim m.status [ failed ↦ true | _ ↦ false ]

module _ (max_retry now : ℕ) (ticket_id : ℕ → ℕ) (send : Message → Delivery) where
  -- One turn of the loop over the batch.
  unfoldable pub dispatch : Message → PlatformDb → PlatformDb
  unfolding ensure_manual_handover
  dispatch m s =
      let m' = attempt max_retry now (send m) m in
      record s {
        messages = update_first (has_message_id m.id) (attempt max_retry now (send m)) s.messages;
        handover_tickets =
            if gives_up m'
            then ensure_manual_handover (ticket_id m.id) m' s.users s.handover_tickets
            else s.handover_tickets;
      }

  unfoldable pub dispatch_all : List Message → PlatformDb → PlatformDb
  unfolding dispatch
  dispatch_all [] s = s
  dispatch_all (m ∷ ms) s = dispatch_all ms (dispatch m s)

  -- `_process_batch`: the number of messages processed, and the tables.
  unfoldable pub process_batch : Bool → ℕ → PlatformDb → ℕ × PlatformDb
  unfolding dispatch_all get_pending retry_due
  process_batch respect_backoff batch_size s =
      let batch = get_pending batch_size s.messages in
      let due = if respect_backoff then select (retry_due now) batch else batch in
      (length due, dispatch_all due s)

-- `MessageOutboxService.mark_failed` of one message; a message that is not there changes nothing.
unfoldable pub mark_failed : ℕ → ℕ → String → ℕ → PlatformDb → PlatformDb
unfolding ensure_manual_handover
mark_failed ticket_id message_id error now s = elim (find (has_message_id message_id) s.messages) [
  | none ↦ s
  | some m ↦
      let m' = mark_retry max_retry_count error now m in
      record s {
        messages =
            update_first (has_message_id message_id) (mark_retry max_retry_count error now)
              s.messages;
        handover_tickets =
            if leb max_retry_count m'.retry_count
            then ensure_manual_handover ticket_id m' s.users s.handover_tickets
            else s.handover_tickets;
      }
]
