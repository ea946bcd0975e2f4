-- ===== src/TimeSync/Laws.antt =====
-- Laws of the signing input and of `checkDeliveryTime` (apps/web/src/services/time-sync.ts).
use privex.Prelude.{
  ℕ, zero, suc, ◌+◌, ◌*◌, ◌^◌, ◌<◌, String, ◌≡◌, refl, sym, ap, ◌∙◌, ◌⊎◌, true, not, none, some, [],
  ◌∷◌, ◌++◌, arith, length, nat_eq, string_eq, bytes_eq,
}
use privex.Crypto.Hex.{Bytes, Text, from_hex}
use privex.TimeSync.{
  be_bytes, TimeEnv, DeliveryTimeFields, ClockStatus, time_signing_input, check_delivery_time,
  check_signed, within_drift,
}

length-be_bytes : (k n : ℕ) → length (be_bytes k n) ≡ k
unfolding be_bytes
length-be_bytes zero n = refl
length-be_bytes (suc k) n = omega (arith, length-be_bytes k n)

append_cancel :
    (xs ys : Bytes) (r s : Bytes) → length xs ≡ length ys → xs ++ r ≡ ys ++ s → (xs ≡ ys) × (r ≡ s)
append_cancel [] [] r s h e = (refl, e)
append_cancel [] (y ∷ ys) r s h e = absurd (omega arith)
append_cancel (x ∷ xs) [] r s h e = absurd (omega arith)
append_cancel (x ∷ xs) (y ∷ ys) r s h e =
    let rest : (xs ≡ ys) × (r ≡ s) = append_cancel xs ys r s (omega arith) (cc) in
    (cc (rest.0), rest.1)

-- the number that eight bytes spell
value_of : Bytes → ℕ → ℕ
value_of [] acc = acc
value_of (b ∷ bs) acc = value_of bs (acc * 256 + b)

be_bytes_8 : (n : ℕ) → n < 2 ^ 64 → value_of (be_bytes 8 n) 0 ≡ n
unfolding be_bytes value_of
be_bytes_8 n h = omega arith

be_bytes-injective : (a b : ℕ) → a < 2 ^ 64 → b < 2 ^ 64 → be_bytes 8 a ≡ be_bytes 8 b → a ≡ b
be_bytes-injective a b ha hb e = sym (be_bytes_8 a ha) ∙ ap (λ x. value_of x 0) e ∙ be_bytes_8 b hb

-- Two deliveries with one signing input have the same time of delivery, the same time of arrival and
-- the same encoded message id, for times that fit 64 bits: a signature cannot be moved to another
-- message or another time.
pub time_signing_input-injective :
    (env : TimeEnv) (ts ts' queued queued' : ℕ) (id id' : String)
    → ts < 2 ^ 64
    → ts' < 2 ^ 64
    → queued < 2 ^ 64
    → queued' < 2 ^ 64
    → time_signing_input env ts queued id ≡ time_signing_input env ts' queued' id'
    → (ts ≡ ts') × (queued ≡ queued') × (env.utf8 id ≡ env.utf8 id')
unfolding time_signing_input
time_signing_input-injective env ts ts' queued queued' id id' h1 h2 h3 h4 e =
    let first : (be_bytes 8 ts ≡ be_bytes 8 ts')
        × (be_bytes 8 queued ++ env.utf8 id ≡ be_bytes 8 queued' ++ env.utf8 id') =
      append_cancel (be_bytes 8 ts) (be_bytes 8 ts') (be_bytes 8 queued ++ env.utf8 id)
        (be_bytes 8 queued' ++ env.utf8 id') (length-be_bytes 8 ts ∙ sym (length-be_bytes 8 ts'))
        e in
    let second : (be_bytes 8 queued ≡ be_bytes 8 queued') × (env.utf8 id ≡ env.utf8 id') =
      append_cancel (be_bytes 8 queued) (be_bytes 8 queued') (env.utf8 id) (env.utf8 id')
        (length-be_bytes 8 queued ∙ sym (length-be_bytes 8 queued')) first.1 in
    (
      be_bytes-injective ts ts' h1 h2 first.0,
      be_bytes-injective queued queued' h3 h4 second.0,
      second.1,
    )

-- The anchor that orders a conversation is the time of arrival of a delivery whose signature the
-- pinned key verifies over exactly its two times and its id.
pub anchor_signed :
    (env : TimeEnv) (frame : DeliveryTimeFields) (c : ClockStatus) (a : ℕ)
    → (check_delivery_time env frame c).0.anchor ≡ some a
    → (a ≡ frame.queued_at)
      × ((ts : ℕ) × (sig : Text) × (frame.server_ts ≡ some ts)
          × (frame.server_ts_sig ≡ some sig)
          × (env.verify
                (time_signing_input env ts frame.queued_at frame.message_id)
                (from_hex sig)
                (from_hex env.time_signing_pub_hex)
              ≡ some true))
unfolding check_delivery_time check_signed
anchor_signed env frame c a h = grind arith

-- A delivery changes the clock warning only if its signature verifies, and then the warning is shown
-- exactly if the local clock is more than the tolerance away from the server's.
pub warning_signed :
    (env : TimeEnv) (frame : DeliveryTimeFields) (c : ClockStatus)
    → (((check_delivery_time env frame c).0.anchor ≡ none)
        × ((check_delivery_time env frame c).1 ≡ c))
      ⊎ ((ts : ℕ) × (frame.server_ts ≡ some ts)
          × ((check_delivery_time env frame c).1.warning
              ≡ not (within_drift env.local_now_secs ts)))
unfolding check_delivery_time check_signed
warning_signed env frame c = grind arith
