-- ===== src/Outbox/Flush.antt =====
-- What one flush of the outbox sends and removes.
use privex.Prelude.{
  ℕ, ◌+◌, ◌-◌, ◌<◌, ◌≡◌, refl, ◌⊎◌, inl, inr, true, false, not, ◌||◌, none, some, List, [], ◌∷◌,
  ◌++◌, arith, leb, Bool-cases, is_some, All, All-append, In, All-In, nat_eq, string_eq, bytes_eq,
}
use privex.Db.Rows.{OutboxRow}
use privex.Device.{Device, Post}
use privex.Outbox.{
  Send, elapsed_secs, is_expired, post_of, delete_row, count_attempt, mark_message, after_send,
  flush_one, flush_loop, flush_outbox, by_created_at, insert_row,
}

-- The parked row that a send came from: its peer, its sealed bytes, and of its time to live what is
-- left, which is not nothing.
pub record IsSendOf (now : OutboxRow → ℕ) (p : Post) (r : OutboxRow) : Type 0 where
  pub to : p.peer_id ≡ r.peer_id
  pub bytes : p.content_b64 ≡ r.sealed_b64
  pub default : r.ttl_seconds ≡ none → p.ttl_seconds ≡ none
  pub remaining :
      (ttl : ℕ)
      → r.ttl_seconds ≡ some ttl
      → (left : ℕ) × (p.ttl_seconds ≡ some left)
        × (0 < left)
        × (left + elapsed_secs (now r) r ≡ ttl)

post_of-IsSendOf :
    (now : OutboxRow → ℕ) (r : OutboxRow)
    → is_expired (now r) r ≡ false
    → IsSendOf now (post_of (now r) r) r
post_of-IsSendOf now r h = record {
  to = refl;
  bytes = refl;
  default = λ e. rw e refl;
  remaining = λ ttl e. (ttl - elapsed_secs (now r) r, rw e refl, ground arith, ground arith);
}

flush_one-posts :
    (send : Send) (now : ℕ) (r : OutboxRow) (d : Device)
    → ((is_expired now r ≡ true) × ((flush_one send now r d).1.posts ≡ d.posts))
      ⊎ ((is_expired now r ≡ false)
          × ((flush_one send now r d).1.posts ≡ d.posts ++ post_of now r ∷ []))
unfolding flush_one mark_message delete_row count_attempt after_send
flush_one-posts send now r d = elim (Bool-cases (is_expired now r)) [
  | inl q ↦ inl (q, ground arith)
  | inr q ↦ inr (q, ground arith)
]

flush_loop-posts :
    (send : Send) (now : OutboxRow → ℕ) (rs : List OutboxRow) (d : Device)
    → (P : Post → Type 0)
    → ((r : OutboxRow) → In r rs → is_expired (now r) r ≡ false → P (post_of (now r) r))
    → All P d.posts
    → All P (flush_loop send now rs d).posts
unfolding flush_loop
flush_loop-posts send now [] d P step h = h
flush_loop-posts send now (r ∷ rs) d P step h =
    let after : All P (flush_one send (now r) r d).1.posts =
      elim (flush_one-posts send (now r) r d) [
        | inl (q, e) ↦ rw e h
        | inr (q, e) ↦
            rw e (All-append P d.posts (post_of (now r) r ∷ []) h (step r (inl refl) q, tt))
      ] in
    elim (Bool-cases (flush_one send (now r) r d).0) [
      | inl s ↦ rw s after
      | inr s ↦ rw s (
          flush_loop-posts send now rs (flush_one send (now r) r d).1 P (λ q m. step q (inr m))
            after)
    ]

In-insert_row : (x r : OutboxRow) (rs : List OutboxRow) → In x (insert_row r rs) → (x ≡ r) ⊎ In x rs
unfolding insert_row
In-insert_row x r [] m = m
In-insert_row x r (q ∷ qs) m = elim (Bool-cases (leb r.created_at q.created_at)) [
  | inl e ↦ rw e at m
  | inr e ↦ elim (rw e at m) [
    | inl k ↦ inr (inl k)
    | inr k ↦ elim (In-insert_row x r qs k) [ inl i ↦ inl i | inr i ↦ inr (inr i) ]
  ]
]

In-by_created_at : (x : OutboxRow) (rs : List OutboxRow) → In x (by_created_at rs) → In x rs
unfolding by_created_at
In-by_created_at x [] m = m
In-by_created_at x (r ∷ rs) m = elim (In-insert_row x r (by_created_at rs) m) [
  | inl e ↦ inl e
  | inr i ↦ inr (In-by_created_at x rs i)
]

-- A send that was made before the flush, or one of a row that was parked.
abbrev pub SendOf : (OutboxRow → ℕ) → Device → Post → Type 0
SendOf now d p = In p d.posts ⊎ ((r : OutboxRow) × In r d.outbox × IsSendOf now p r)

-- Every send of a flush is one of a parked row and carries what is left of that row's time to live,
-- at least a second, so that a row past its time to live is never sent and a delayed one never lives
-- longer on the server than was asked.
pub flush_outbox-SendOf :
    (send : Send) (now : OutboxRow → ℕ) (d : Device)
    → All (SendOf now d) (flush_outbox send now d).posts
unfolding flush_outbox
flush_outbox-SendOf send now d =
    let old : All (SendOf now d) d.posts = All-In (SendOf now d) d.posts (λ p m. inl m) in
    elim (Bool-cases (not (is_some d.session_token) || d.flushing)) [
      | inl q ↦ rw q old
      | inr q ↦ rw q (
          flush_loop-posts send now (by_created_at d.outbox) (record d { flushing = true })
            (SendOf now d)
            (λ r m k. inr (r, In-by_created_at r d.outbox m, post_of-IsSendOf now r k)) old)
    ]
