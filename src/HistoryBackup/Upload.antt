-- ===== src/HistoryBackup/Upload.antt =====
-- How an upload is cut into posts (`uploadBatched` of apps/web/src/services/history-backup.ts).
use privex.Prelude.{
  ◌≡◌, refl, ap, sym, ◌∙◌, ℕ, ◌+◌, ◌≤◌, ◌⊎◌, inl, inr, Bool, true, false, Option, none, some, List,
  [], ◌∷◌, ◌++◌, length, length-append, String, All, tests, Bool-cases, arith,
}
use mathlib.Core.List.{append_assoc, append-nil}
use privex.Device.{Fault}
use privex.Exec.{Flow, Done, Outcome, done, thrown, pure, throw, gets, await, modify, ◌>>=◌, ◌>>◌}
use privex.HistoryBackup.{
  Blob, HistoryEnv, Backup, max_count, max_body, size_of, is_full, upload_history, upload_loop,
  upload_batched, token,
}

abbrev pub join : List (List Blob) → List Blob
join [] = []
join (b ∷ bs) = b ++ join bs

abbrev pub total_size : List Blob → ℕ
total_size [] = 0
total_size (b ∷ bs) = size_of b + total_size bs

-- one post: some blobs, at most 200, and at most 1,500,000 characters unless it is a single blob
pub record IsPost (post : List Blob) : Type 0 where
  pub some_blobs : 1 ≤ length post
  pub few : length post ≤ max_count
  pub small : (total_size post ≤ max_body) ⊎ (length post ≡ 1)

-- what the server took, and what is left if it refused; nothing is deleted
pub record IsUploaded (blobs : List Blob) (before : Backup) (o : Outcome Done) (later : Backup)
    : Type 0 where
  pub posts : List (List Blob)
  pub rest : List Blob
  pub grown : later.uploaded ≡ before.uploaded ++ posts
  pub whole : join posts ++ rest ≡ blobs
  pub fit : All IsPost posts
  pub finished : o ≡ done tt → rest ≡ []
  pub undeleted : later.deleted ≡ before.deleted

abbrev sent : List Blob → Backup → Backup
sent post s = record s { uploaded = s.uploaded ++ post ∷ [] }

-- a batch in the making, with its bytes
record IsBatch (batch : List Blob) (bytes : ℕ) : Type 0 where
  few : length batch ≤ max_count
  size : bytes ≡ total_size batch
  small : (total_size batch ≤ max_body) ⊎ (length batch ≡ 1)

total_size-append : (xs ys : List Blob) → total_size (xs ++ ys) ≡ total_size xs + total_size ys
total_size-append [] ys = omega arith
total_size-append (x ∷ xs) ys = omega (arith, total_size-append xs ys)

module _ (env : HistoryEnv) where
  upload_history-cases :
      (post : List Blob) (s : Backup)
      → (upload_history env post s ≡ (done tt, sent post s))
        ⊎ (upload_history env post s ≡ (thrown (Fault.error "upload"), s))
  unfolding upload_history modify throw
  upload_history-cases post s = elim (Bool-cases (env.takes post)) [
    | inl q ↦ inl (rw q refl)
    | inr q ↦ inr (rw q refl)
  ]

  -- a post was refused, or none was made
  stopped_at : (blobs : List Blob) (s : Backup) (f : Fault) → IsUploaded blobs s (thrown f) s
  stopped_at blobs s f = record {
    posts = [];
    rest = blobs;
    grown = sym (append-nil s.uploaded);
    whole = refl;
    fit = tt;
    finished = λ q. absurd cc;
    undeleted = refl;
  }

  IsPost-of_batch :
      (b : Blob) (batch : List Blob) (bytes : ℕ) → IsBatch (b ∷ batch) bytes → IsPost (b ∷ batch)
  IsPost-of_batch b batch bytes h = record {
    some_blobs = omega arith;
    few = h.few;
    small = h.small;
  }

  -- a post before the others
  after_post :
      (post blobs : List Blob) (s : Backup) (o : Outcome Done) (later : Backup)
      → IsPost post
      → IsUploaded blobs (sent post s) o later
      → IsUploaded (post ++ blobs) s o later
  after_post post blobs s o later p u = record {
    posts = post ∷ u.posts;
    rest = u.rest;
    grown = u.grown ∙ append_assoc s.uploaded (post ∷ []) u.posts;
    whole = append_assoc post (join u.posts) u.rest ∙ ap (λ x. post ++ x) u.whole;
    fit = (p, u.fit);
    finished = u.finished;
    undeleted = u.undeleted;
  }

  all_sent : (s : Backup) → IsUploaded [] s (done tt) s
  all_sent s = record {
    posts = [];
    rest = [];
    grown = sym (append-nil s.uploaded);
    whole = refl;
    fit = tt;
    finished = λ q. refl;
    undeleted = refl;
  }

  -- the post of a batch, and what comes after it
  posted :
      (b : Blob) (batch : List Blob) (bytes : ℕ) (blobs : List Blob) (k : Flow Backup Done)
      (s : Backup)
      → IsBatch (b ∷ batch) bytes
      → ((s' : Backup) → let (o, later) = k s' in IsUploaded blobs s' o later)
      → let (o, later) = (upload_history env (b ∷ batch) >> k) s in
        IsUploaded ((b ∷ batch) ++ blobs) s o later
  unfolding ◌>>=◌
  posted b batch bytes blobs k s h next = elim (upload_history-cases (b ∷ batch) s) [
    | inl q ↦ rw q (
        after_post (b ∷ batch) blobs s _ _ (IsPost-of_batch b batch bytes h)
          (next (sent (b ∷ batch) s)))
    | inr q ↦ rw q (stopped_at ((b ∷ batch) ++ blobs) s (Fault.error "upload"))
  ]

  first-IsBatch : (b : Blob) → IsBatch (b ∷ []) (size_of b)
  first-IsBatch b = record { few = omega arith; size = omega arith; small = inr refl }

  next-IsBatch :
      (batch : List Blob) (bytes : ℕ) (b : Blob)
      → IsBatch batch bytes
      → is_full batch bytes b ≡ false
      → IsBatch (batch ++ b ∷ []) (bytes + size_of b)
  next-IsBatch [] bytes b h q = record {
    few = omega arith;
    size = omega (arith, h.size);
    small = inr refl;
  }
  next-IsBatch (c ∷ batch) bytes b h q = record {
    few = grind (arith, tests, length-append batch (b ∷ []));
    size = omega (arith, h.size, total_size-append (c ∷ batch) (b ∷ []));
    small = inl (grind (arith, tests, h.size, total_size-append (c ∷ batch) (b ∷ [])));
  }

  Uploads : List Blob → Backup → Flow Backup Done → Type 0
  Uploads blobs s m = IsUploaded blobs s (m s).0 (m s).1

  either :
      (x : Bool) (f g : Flow Backup Done) (blobs : List Blob) (s : Backup)
      → (x ≡ true → Uploads blobs s f)
      → (x ≡ false → Uploads blobs s g)
      → Uploads blobs s (elim x [ true ↦ f | false ↦ g ])
  either true f g blobs s h k = h refl
  either false f g blobs s h k = k refl

  last_batch :
      (c : Blob) (batch : List Blob) (bytes : ℕ) (s : Backup)
      → IsBatch (c ∷ batch) bytes
      → Uploads ((c ∷ batch) ++ []) s (upload_history env (c ∷ batch))
  unfolding Uploads
  last_batch c batch bytes s h = elim (upload_history-cases (c ∷ batch) s) [
    | inl q ↦ rw q (
        after_post (c ∷ batch) [] s _ _ (IsPost-of_batch c batch bytes h)
          (all_sent (sent (c ∷ batch) s)))
    | inr q ↦ rw q (stopped_at ((c ∷ batch) ++ []) s (Fault.error "upload"))
  ]

  upload_loop-IsUploaded :
      (blobs batch : List Blob) (bytes : ℕ) (s : Backup)
      → IsBatch batch bytes
      → Uploads (batch ++ blobs) s (upload_loop env batch bytes blobs)
  unfolding upload_loop pure Uploads
  upload_loop-IsUploaded [] [] bytes s h = all_sent s
  upload_loop-IsUploaded [] (c ∷ batch) bytes s h = last_batch c batch bytes s h
  upload_loop-IsUploaded (b ∷ blobs) [] bytes s h =
      upload_loop-IsUploaded blobs (b ∷ []) (bytes + size_of b) s (next-IsBatch [] bytes b h refl)
  upload_loop-IsUploaded (b ∷ blobs) (c ∷ batch) bytes s h =
      either (is_full (c ∷ batch) bytes b) _ _ ((c ∷ batch) ++ b ∷ blobs) s
        (λ q.
          posted c batch bytes (b ∷ blobs) _ s h
            (λ s'. upload_loop-IsUploaded blobs (b ∷ []) (size_of b) s' (first-IsBatch b)))
        (λ q. rw (sym (append_assoc (c ∷ batch) (b ∷ []) blobs)) (
          upload_loop-IsUploaded blobs ((c ∷ batch) ++ b ∷ []) (bytes + size_of b) s
            (next-IsBatch (c ∷ batch) bytes b h q)))

  with_token :
      (o : Option String) (blobs : List Blob) (s : Backup)
      → Uploads blobs s
          (await (Fault.error "not authenticated") o >>= λ (t : String). upload_loop env [] 0 blobs)
  unfolding await ◌>>=◌ Uploads
  with_token none blobs s = stopped_at blobs s (Fault.error "not authenticated")
  with_token (some t) blobs s =
      upload_loop-IsUploaded blobs [] 0 s
        (record { few = omega arith; size = refl; small = inl (omega arith) })

  -- However many blobs there are and whichever posts the server refuses: an upload that returns has
  -- posted all of them in their order, and one that throws a beginning of them; a post holds at least one
  -- blob and at most 200, and no more than 1,500,000 characters unless it is a single blob. Nothing is
  -- deleted.
  pub upload_batched-IsUploaded :
      (blobs : List Blob) (s : Backup)
      → let (o, later) = upload_batched env blobs s in IsUploaded blobs s o later
  unfolding upload_batched token gets ◌>>=◌ Uploads
  upload_batched-IsUploaded blobs s = with_token s.device.session_token blobs s
