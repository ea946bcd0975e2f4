-- ===== src/HistoryBackup/Restore/Justified.antt =====
-- Which contacts a restore accepts (`restoreHistory` of apps/web/src/services/history-backup.ts).
use privex.Prelude.{
  ◌≡◌, refl, ap, sym, ◌∙◌, ◌⊎◌, inl, inr, ℕ, ◌+◌, String, Bool, true, false, Option, none, some,
  is_some, List, [], ◌∷◌, ◌++◌, any, length, or_else, if◌then◌else◌, ◌==◌, eq_of_beq, string_eq,
  Bool-cases, All, All-append, In, arith,
}
use privex.Db.Rows.{ContactStatus, accepted, pending_inbound}
use privex.Device.{Device, Fault}
use privex.Exec
use privex.Exec.{Flow, Done, Outcome, done, thrown, pure, throw, gets, await, modify, ◌>>=◌, ◌>>◌}
use privex.HistoryRecords.{HistoryRecord, message, contact, MsgRecord, ContactRecord, import_record}
use privex.HistoryBackup.{
  Blob, HistoryKeys, HistoryEnv, Backup, token, history_key, history_key_from,
}
use privex.HistoryBackup.Restore.{
  Seen, is_out, import_one, restore_record, restore_rows, restore_pages, restore_legacy,
  restore_history,
}
use privex.HistoryBackup.Restore.Accepted.{Vouches, Accepts, import_contact-Accepts}

module _ (env : HistoryEnv) (before : Device) (V : String → Type 0) where
  -- every accepted contact was accepted before or is vouched for
  IsJustified : Backup → Type 0
  IsJustified s = (j : String) → Accepts s.device j → Accepts before j ⊎ V j

  -- what is known of the rows read: the peers are vouched for, and the contacts have no status
  record IsSeen (seen : Seen) : Type 0 where
    peers : All V seen.messaged
    statusless : All (λ c. c.status ≡ none) seen.legacy

  -- the result of an action: a justified device, and a property of what it returns
  IsSound : {A : Type 0} → (A → Type 0) → Outcome A × Backup → Type 0
  IsSound Q (done a, s) = Q a × IsJustified s
  IsSound Q (thrown f, s) = IsJustified s

  resume-IsSound :
      {A B : Type 0} (Q : A → Type 0) (R : B → Type 0) (r : Outcome A × Backup)
      (k : A → Flow Backup B)
      → IsSound Q r
      → ((a : A) (t : Backup) → Q a → IsJustified t → IsSound R (k a t))
      → IsSound R (Exec.resume r.0 k r.1)
  unfolding IsSound
  resume-IsSound Q R (done a, s) k g h = h a s g.0 g.1
  resume-IsSound Q R (thrown f, s) k g h = g

  then-IsSound :
      {A B : Type 0} (Q : A → Type 0) (R : B → Type 0) (m : Flow Backup A) (k : A → Flow Backup B)
      (s : Backup)
      → IsSound Q (m s)
      → ((a : A) (t : Backup) → Q a → IsJustified t → IsSound R (k a t))
      → IsSound R ((m >>= k) s)
  unfolding ◌>>=◌
  then-IsSound Q R m k s g h = resume-IsSound Q R (m s) k g h

  import_contact-IsSound :
      (r : ContactRecord) (status : ContactStatus) (s : Backup)
      → ((or_else r.status status ≡ accepted) → V r.px_id)
      → IsJustified s
      → IsSound (λ u. Unit) (import_one env (contact r) status s)
  unfolding IsSound IsJustified modify
  import_contact-IsSound r status s v g = (
    tt,
    λ j h. elim (import_contact-Accepts r status env.now_s s.device j h) [
      | inl q ↦ g j q
      | inr q ↦ inr (rw (← q.0) (v q.1))
    ],
  )

  import_message-IsSound :
      (r : MsgRecord) (status : ContactStatus) (s : Backup)
      → IsJustified s
      → IsSound (λ u. Unit) (import_one env (message r) status s)
  unfolding IsSound IsJustified modify import_record
  import_message-IsSound r status s g = (tt, g)

  with_peer :
      (x : Bool) (seen : Seen) (peer : String)
      → (x ≡ true → V peer)
      → IsSeen seen
      → IsSeen (if x then record seen { messaged = peer ∷ seen.messaged } else seen)
  with_peer true seen peer v h = record { peers = (v refl, h.peers); statusless = h.statusless }
  with_peer false seen peer v h = h

  with_contact :
      (seen : Seen) (r : ContactRecord)
      → r.status ≡ none
      → IsSeen seen
      → IsSeen (record seen { legacy = seen.legacy ++ r ∷ [] })
  with_contact seen r q h = record {
    peers = h.peers;
    statusless = All-append (λ c. c.status ≡ none) seen.legacy (r ∷ []) h.statusless (q, tt);
  }

  by_status :
      (r : ContactRecord) (seen : Seen) (s : Backup) (o : Option ContactStatus)
      → r.status ≡ o
      → IsSeen seen
      → (Vouches (contact r) r.px_id → V r.px_id)
      → IsJustified s
      → IsSound IsSeen (
          (if is_some o
              then (do import_one env (contact r) pending_inbound; pure seen)
              else pure (record seen { legacy = seen.legacy ++ r ∷ [] }))
            s)
  unfolding pure IsSound
  by_status r seen s none q h v g = (with_contact seen r q h, g)
  by_status r seen s (some status) q h v g =
      then-IsSound (λ u. Unit) IsSeen (import_one env (contact r) pending_inbound) (λ u. pure seen)
        s
        (import_contact-IsSound r pending_inbound s
          (λ e. v (refl, q ∙ ap some (sym (ap (λ o. or_else o pending_inbound) q) ∙ e))) g)
        (λ u t a b. (h, b))

  restore_record-IsSound :
      (r : HistoryRecord) (seen : Seen) (s : Backup)
      → IsSeen seen
      → ((j : String) → Vouches r j → V j)
      → IsJustified s
      → IsSound IsSeen (restore_record env r seen s)
  unfolding restore_record pure IsSound
  restore_record-IsSound (message r) seen s h v g =
      then-IsSound (λ u. Unit) IsSeen (import_one env (message r) pending_inbound)
        (λ u.
          pure (if is_out r then record seen { messaged = r.peer_id ∷ seen.messaged } else seen))
        s (import_message-IsSound r pending_inbound s g)
        (λ u t a b. (with_peer (is_out r) seen r.peer_id (λ q. v r.peer_id (refl, q)) h, b))
  restore_record-IsSound (contact r) seen s h v g = by_status r seen s r.status refl h (v r.px_id) g

  after_await :
      {A B : Type 0} (R : B → Type 0) (f : Fault) (o : Option A) (k : A → Flow Backup B)
      (s : Backup)
      → IsJustified s
      → ((a : A) → o ≡ some a → IsSound R (k a s))
      → IsSound R ((await f o >>= k) s)
  unfolding ◌>>=◌ await IsSound
  after_await R f none k s g h = g
  after_await R f (some a) k s g h = h a refl

  -- what the rows say is vouched for
  abbrev Told : HistoryKeys → List Blob → Type 0
  Told keys rows =
      (w : Blob) (r : HistoryRecord) (j : String)
      → In w rows
      → env.decrypt keys.enc w.ciphertext ≡ some r
      → Vouches r j
      → V j

  restore_rows-IsSound :
      (keys : HistoryKeys) (rows : List Blob) (seen : Seen) (s : Backup)
      → IsSeen seen
      → Told keys rows
      → IsJustified s
      → IsSound IsSeen (restore_rows env keys rows seen s)
  unfolding restore_rows pure IsSound
  restore_rows-IsSound keys [] seen s h v g = (h, g)
  restore_rows-IsSound keys (w ∷ rows) seen s h v g =
      after_await IsSeen (Fault.error "decrypt") (env.decrypt keys.enc w.ciphertext) _ s g (λ r q.
        then-IsSound IsSeen IsSeen (restore_record env r seen)
          (λ next. restore_rows env keys rows next) s
          (restore_record-IsSound r seen s h (λ j. v w r j (inl refl) q) g)
          (λ next t a b. restore_rows-IsSound keys rows next t a (λ x y j i. v x y j (inr i)) b))

  restore_pages-IsSound :
      (keys : HistoryKeys) (pages : List (Option (List Blob))) (seen : Seen) (s : Backup)
      → IsSeen seen
      → ((rows : List Blob) → In (some rows) pages → Told keys rows)
      → IsJustified s
      → IsSound IsSeen (restore_pages env keys pages seen s)
  unfolding restore_pages pure IsSound
  restore_pages-IsSound keys [] seen s h v g = (h, g)
  restore_pages-IsSound keys (page ∷ pages) seen s h v g =
      after_await IsSeen (Fault.error "list") page _ s g (λ rows q.
        then-IsSound IsSeen IsSeen (restore_rows env keys rows seen)
          (λ next. restore_pages env keys pages (record next { count = next.count + length rows }))
          s (restore_rows-IsSound keys rows seen s h (v rows (inl (sym q))) g)
          (λ next t a b.
            restore_pages-IsSound keys pages _ t
              (record { peers = a.peers; statusless = a.statusless }) (λ more i. v more (inr i)) b))

  any-In :
      (messaged : List String) (j : String)
      → All V messaged
      → any (λ p. p == j) messaged ≡ true
      → V j
  any-In [] j h q = absurd cc
  any-In (p ∷ messaged) j (v, h) q = elim (Bool-cases (p == j)) [
    | inl e ↦ rw (← eq_of_beq p j e) v
    | inr e ↦ any-In messaged j h (ground (arith, e))
  ]

  chosen :
      (x : Bool) (o : Option ContactStatus)
      → o ≡ none
      → or_else o (if x then accepted else pending_inbound) ≡ accepted
      → x ≡ true
  chosen true o q h = refl
  chosen false o q h = absurd cc

  restore_legacy-IsSound :
      (messaged : List String) (legacy : List ContactRecord) (s : Backup)
      → All V messaged
      → All (λ c. c.status ≡ none) legacy
      → IsJustified s
      → IsSound (λ u. Unit) (restore_legacy env messaged legacy s)
  unfolding restore_legacy pure IsSound
  restore_legacy-IsSound messaged [] s h n g = (tt, g)
  restore_legacy-IsSound messaged (c ∷ legacy) s h (q, n) g =
      then-IsSound (λ u. Unit) (λ u. Unit)
        (import_one env (contact c)
          (if any (λ p. p == c.px_id) messaged then accepted else pending_inbound))
        (λ u. restore_legacy env messaged legacy) s
        (import_contact-IsSound c _ s
          (λ e. any-In messaged c.px_id h (chosen (any (λ p. p == c.px_id) messaged) c.status q e))
          g)
        (λ u t a b. restore_legacy-IsSound messaged legacy t h n b)

  device_of : {A : Type 0} (Q : A → Type 0) (r : Outcome A × Backup) → IsSound Q r → IsJustified r.1
  unfolding IsSound
  device_of Q (done a, s) g = g.1
  device_of Q (thrown f, s) g = g

  history_key-IsSound :
      (o : Option HistoryKeys) (s : Backup)
      → IsJustified s
      → IsSound (λ keys. Unit) (history_key_from env o s)
  unfolding history_key_from IsSound pure IsJustified modify ◌>>=◌
  history_key-IsSound (some keys) s g = (tt, g)
  history_key-IsSound none s g =
      after_await (λ keys. Unit) (Fault.error "identity not loaded") env.load_seed _ s g
        (λ seed q. (tt, g))

  await-IsSound :
      {A : Type 0} (f : Fault) (o : Option A) (s : Backup)
      → IsJustified s
      → IsSound (λ a. Unit) (await f o s)
  unfolding await IsSound
  await-IsSound f none s g = g
  await-IsSound f (some a) s g = (tt, g)

  key-IsSound : (s : Backup) → IsJustified s → IsSound (λ keys. Unit) (history_key env s)
  unfolding history_key
  key-IsSound s g = history_key-IsSound s.key_cache s g

  token-IsSound : (s : Backup) → IsJustified s → IsSound (λ t. Unit) (token s)
  unfolding token gets ◌>>=◌
  token-IsSound s g = await-IsSound (Fault.error "not authenticated") s.device.session_token s g

  returned : (n : ℕ) (s : Backup) → IsJustified s → IsSound (λ n. Unit) (pure n s)
  unfolding pure IsSound
  returned n s g = (tt, g)

  restore_history-IsSound :
      (pages : List (Option (List Blob))) (s : Backup)
      → ((keys : HistoryKeys) (rows : List Blob) → In (some rows) pages → Told keys rows)
      → IsJustified s
      → IsSound (λ n. Unit) (restore_history env pages s)
  unfolding restore_history
  restore_history-IsSound pages s v g =
      then-IsSound (λ keys. Unit) (λ n. Unit) (history_key env) _ s (key-IsSound s g)
        (λ keys t a b.
          then-IsSound (λ tok. Unit) (λ n. Unit) token _ t (token-IsSound t b)
            (λ tok t' a' b'.
              then-IsSound IsSeen (λ n. Unit)
                (restore_pages env keys pages (record { legacy = []; messaged = []; count = 0 })) _
                t'
                (restore_pages-IsSound keys pages _ t' (record { peers = tt; statusless = tt })
                  (v keys) b')
                (λ seen t'' c d.
                  then-IsSound (λ u. Unit) (λ n. Unit)
                    (restore_legacy env seen.messaged seen.legacy) _ t''
                    (restore_legacy-IsSound seen.messaged seen.legacy t'' c.peers c.statusless d)
                    (λ u t''' e f. returned seen.count t''' f))))

-- a record on the server that says that we accepted a contact
pub record IsTold (env : HistoryEnv) (pages : List (Option (List Blob))) (j : String) : Type 0 where
  pub keys : HistoryKeys
  pub rows : List Blob
  pub page : In (some rows) pages
  pub blob : Blob
  pub row : In blob rows
  pub content : HistoryRecord
  pub reads : env.decrypt keys.enc blob.ciphertext ≡ some content
  pub vouches : Vouches content j

-- Whatever the server answers and wherever a restore stops: a contact that the device has accepted
-- afterwards was accepted before, or a blob that decrypts is a contact record that says so or a message
-- that we sent to that contact.
pub restore_history-Accepts :
    (env : HistoryEnv) (pages : List (Option (List Blob))) (s : Backup) (j : String)
    → Accepts (restore_history env pages s).1.device j
    → Accepts s.device j ⊎ IsTold env pages j
unfolding IsJustified
restore_history-Accepts env pages s j h =
    device_of env s.device (IsTold env pages) (λ n. Unit) (restore_history env pages s)
      (restore_history-IsSound env s.device (IsTold env pages) pages s
        (λ keys rows i w r j' k q v. record {
          keys = keys;
          rows = rows;
          page = i;
          blob = w;
          row = k;
          content = r;
          reads = q;
          vouches = v;
        })
        (λ j' k. inl k))
      j h
