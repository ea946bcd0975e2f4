-- ===== src/Outbox.antt =====
-- The offline outbox (apps/web/src/services/outbox.ts). The clock, in milliseconds, is read for each
-- row, `now`; the network's answer to a send is the argument `send`.
pub mod Flush
use privex.Prelude.{
  ℕ, ◌+◌, ◌-◌, ◌/◌, String, Bool, true, false, not, ◌||◌, Option, none, some, List, [], ◌∷◌, ◌++◌,
  map, leb, if◌then◌else◌, is_some, length, filter, ◌==◌, nat_eq, string_eq, bytes_eq,
}
use privex.Crypto.Hex.{Text}
use privex.Db.Table
use privex.Db.Rows.{OutboxRow, MessageRow, MessageStatus}
use privex.Device.{Device, Event, Post, Reply, with_store, emit}

-- statuses that a retry can never fix
abbrev pub permanent : ℕ → Bool
permanent status = status == 400 || status == 404 || status == 413

unfoldable pub enqueue : String → Text → String → Option ℕ → ℕ → Device → Device
enqueue peer_id sealed_b64 local_msg_id ttl_seconds now d = emit Event.background_sync (
    emit Event.outbox (
      with_store
        (λ s. record s {
          outbox =
              s.outbox
              ++ record {
                id = s.outbox_next;
                peer_id = peer_id;
                sealed_b64 = sealed_b64;
                local_msg_id = local_msg_id;
                created_at = now;
                attempts = 0;
                ttl_seconds = ttl_seconds;
              }
                ∷ [];
          outbox_next = s.outbox_next + 1;
        })
        d))

unfoldable pub outbox_count : Device → ℕ
outbox_count d = length d.outbox

-- `orderBy("created_at")`; rows of one time stay in the order of their keys
insert_row : OutboxRow → List OutboxRow → List OutboxRow
insert_row r [] = r ∷ []
insert_row r (q ∷ qs) = if leb r.created_at q.created_at then r ∷ q ∷ qs else q ∷ insert_row r qs

pub by_created_at : List OutboxRow → List OutboxRow
unfolding insert_row
by_created_at [] = []
by_created_at (r ∷ rs) = insert_row r (by_created_at rs)

-- the truncated subtraction is the clamp at 0
abbrev pub elapsed_secs : ℕ → OutboxRow → ℕ
elapsed_secs now r = (now - r.created_at) / 1000

abbrev pub is_expired : ℕ → OutboxRow → Bool
is_expired now r = elim r.ttl_seconds [ none ↦ false | some ttl ↦ leb ttl (elapsed_secs now r) ]

abbrev pub remaining_ttl : ℕ → OutboxRow → Option ℕ
remaining_ttl now r = elim r.ttl_seconds [
  | none ↦ none
  | some ttl ↦ some (ttl - elapsed_secs now r)
]

unfoldable pub delete_row : ℕ → Device → Device
delete_row id = with_store λ s. record s { outbox = filter (λ r. not (r.id == id)) s.outbox }

unfoldable pub count_attempt : ℕ → Device → Device
count_attempt id = with_store λ s. record s {
  outbox = map (λ r. if r.id == id then record r { attempts = r.attempts + 1 } else r) s.outbox;
}

-- a silent control message has no row in the chat
unfoldable pub mark_message : OutboxRow → MessageStatus → Device → Device
mark_message r status d =
    if r.local_msg_id == ""
    then d
    else emit (Event.message r.peer_id) (
        with_store
          (λ s. record s {
            messages =
                Table.update s.messages r.local_msg_id
                  (λ (m : MessageRow). record m { status = status });
          })
          d)

abbrev pub Send : Type 0
Send = String → Text → Option ℕ → Reply

-- what follows one answer; `true` ends the loop
after_send : OutboxRow → Reply → Device → Bool × Device
after_send r (Reply.message_id id) d =
    (false, mark_message r MessageStatus.sent (delete_row r.id d))
after_send r (Reply.api_error status) d =
    if permanent status then (false, mark_message r MessageStatus.failed (delete_row r.id d)) else (
      true,
      if status == 401
          then emit Event.reauthenticate (count_attempt r.id d)
          else count_attempt r.id d,
    )
after_send r Reply.offline d = (true, count_attempt r.id d)

abbrev pub post_of : ℕ → OutboxRow → Post
post_of now r = record {
  peer_id = r.peer_id;
  content_b64 = r.sealed_b64;
  ttl_seconds = remaining_ttl now r;
}

flush_one : Send → ℕ → OutboxRow → Device → Bool × Device
unfolding after_send
flush_one send now r d =
    if is_expired now r
    then (false, mark_message r MessageStatus.failed (delete_row r.id d))
    else after_send r (send r.peer_id r.sealed_b64 (remaining_ttl now r))
        (record d { posts = d.posts ++ post_of now r ∷ [] })

unfoldable pub flush_loop : Send → (OutboxRow → ℕ) → List OutboxRow → Device → Device
unfolding flush_one
flush_loop send now [] d = d
flush_loop send now (r ∷ rs) d =
    let (stop, d') = flush_one send (now r) r d in
    let rest = flush_loop send now rs d' in if stop then d' else rest

unfoldable pub flush_outbox : Send → (OutboxRow → ℕ) → Device → Device
unfolding by_created_at
flush_outbox send now d =
    if not (is_some d.session_token) || d.flushing
    then d
    else emit Event.outbox
        (record (flush_loop send now (by_created_at d.outbox) (record d { flushing = true })) {
          flushing = false;
        })
