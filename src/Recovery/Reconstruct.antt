-- ===== src/Recovery/Reconstruct.antt =====
-- That the shares of two contacts open the seed (apps/web/src/services/recovery.ts).
use privex.Prelude.{
  ◌≡◌, ◌≢◌, refl, ap, sym, ◌∙◌, inl, inr, ℕ, false, Option, none, some, List, [], ◌∷◌, bytes_eq,
  Bool-cases, Option-cases, In, arith, ◌++◌, ◌≤◌, length, leb, take, drop, take-append, drop-append,
  length-append,
}
use mathlib.Core.Option.{some-injective, none-ne-some}
use privex.Exec.{Outcome, done, thrown}
use privex.Crypto.Hex.{Bytes, Text, IsBytes, from_hex, from_hex-to_hex}
use privex.Recovery.{
  ContactRecoveryCrypto, ShareWire, rk_pub_len, seal_blob, unseal_bytes, find_share, approved_blob,
  unseal_blob, try_with, try_reconstruct, collect_some, collect_blobs, unseal_and_reconstruct,
}
use privex.Recovery.Collected.{
  IsCollection, shares_of, collect-IsCollection, collect-In, collect-keeps,
}

result_or : {A : Type 0} → A → Outcome A → A
result_or a (done b) = b
result_or a (thrown f) = a

done-injective : {A : Type 0} (a b : A) → done a ≡ done b → a ≡ b
unfolding result_or
done-injective a b h = ap (result_or a) h

module _ (crypto : ContactRecoveryCrypto) (seed : Bytes) where
  -- Of these shares, a pair gives the seed or nothing: no two of them are of another seed.
  pub record IsValidating (shares : List Bytes) : Type 0 where
    pub only :
        (x y s : Bytes)
        → In x shares
        → In y shares
        → crypto.shamir_reconstruct x y ≡ some s
        → s ≡ seed

  -- a list of some of these shares
  abbrev IsAmong : List Bytes → List Bytes → Type 0
  IsAmong shares part = (x : Bytes) → In x part → In x shares

  -- two shares that open the seed, in either order
  pub record IsPair (a b : Bytes) : Type 0 where
    pub opens : crypto.shamir_reconstruct a b ≡ some seed
    pub opens_back : crypto.shamir_reconstruct b a ≡ some seed
    pub apart : a ≢ b

  module _ (shares : List Bytes) (law : IsValidating shares) where
    try_with-seed :
        (x y : Bytes) (rest : List Bytes)
        → In x shares
        → IsAmong shares rest
        → In y rest
        → crypto.shamir_reconstruct x y ≡ some seed
        → try_with crypto x rest ≡ some seed
    unfolding try_with
    try_with-seed x y [] ix sub i q = absurd i
    try_with-seed x y (z ∷ rest) ix sub i q = elim (Option-cases (crypto.shamir_reconstruct x z)) [
      | inr (s, e) ↦ rw (try_with, e) (ap some (law.only x z s ix (sub z (inl refl)) e))
      | inl e ↦
          rw (try_with, e)
            (elim i [
              | inl j ↦
                  absurd (
                    none-ne-some seed (sym e ∙ ap (λ t. crypto.shamir_reconstruct x t) (sym j) ∙ q))
              | inr j ↦ try_with-seed x y rest ix (λ u k. sub u (inr k)) j q
            ])
    ]

    try_with-only :
        (x s : Bytes) (rest : List Bytes)
        → In x shares
        → IsAmong shares rest
        → try_with crypto x rest ≡ some s
        → s ≡ seed
    unfolding try_with
    try_with-only x s [] ix sub h = absurd cc
    try_with-only x s (z ∷ rest) ix sub h = elim (Option-cases (crypto.shamir_reconstruct x z)) [
      | inr (t, e) ↦
          sym (some-injective _ _ (rw (try_with, e) at h)) ∙ law.only x z t ix (sub z (inl refl)) e
      | inl e ↦ try_with-only x s rest ix (λ u k. sub u (inr k)) (rw (try_with, e) at h)
    ]

    try_reconstruct-seed :
        (a b : Bytes) (part : List Bytes)
        → IsPair a b
        → IsAmong shares part
        → In a part
        → In b part
        → try_reconstruct crypto part ≡ some seed
    unfolding try_reconstruct
    try_reconstruct-seed a b [] p sub i j = absurd i
    try_reconstruct-seed a b (x ∷ rest) p sub i j = elim (Option-cases (try_with crypto x rest)) [
      | inr (s, e) ↦
          rw (try_reconstruct, e)
            (ap some (try_with-only x s rest (sub x (inl refl)) (λ u k. sub u (inr k)) e))
      | inl e ↦
          rw (try_reconstruct, e)
            (elim i [
              | inl k ↦ elim j [
                | inl l ↦ absurd (p.apart (k ∙ sym l))
                | inr l ↦ absurd (
                    none-ne-some seed (
                      sym e
                      ∙ ap (λ t. try_with crypto t rest) (sym k)
                      ∙ try_with-seed a b rest (sub a (inl k)) (λ u m. sub u (inr m)) l p.opens))
              ]
              | inr k ↦ elim j [
                | inl l ↦ absurd (
                    none-ne-some seed (
                      sym e
                      ∙ ap (λ t. try_with crypto t rest) (sym l)
                      ∙ try_with-seed b a rest (sub b (inl l)) (λ u m. sub u (inr m)) k
                          p.opens_back))
                | inr l ↦ try_reconstruct-seed a b rest p (λ u m. sub u (inr m)) k l
              ]
            ])
    ]

module _ (crypto : ContactRecoveryCrypto) where
  -- what the worker documents of wrapping to a key pair: the private key opens what was wrapped, and the
  -- ephemeral key has 32 bytes
  pub record IsSealing (pub_key priv_key : Bytes) : Type 0 where
    pub opens :
        (share : Bytes)
        → IsBytes share
        → let w = crypto.wrap_cek share pub_key in
          crypto.unwrap_cek w.wrapped w.eph_pub priv_key ≡ some share
    pub eph_len : (share : Bytes) → length (crypto.wrap_cek share pub_key).eph_pub ≡ rk_pub_len
    pub not_empty : (share : Bytes) → 1 ≤ length (crypto.wrap_cek share pub_key).wrapped
    pub bytes :
        (share : Bytes)
        → IsBytes share
        → let w = crypto.wrap_cek share pub_key in IsBytes (w.eph_pub ++ w.wrapped)

  -- what opens is bytes
  pub record OpensBytes (priv_key : Bytes) : Type 0 where
    pub bytes : (w e share : Bytes) → crypto.unwrap_cek w e priv_key ≡ some share → IsBytes share

  split_blob :
      {C : Type 0} (f : Bytes → Bytes → C) (e w : Bytes) (n : ℕ)
      → length e ≡ n
      → f (drop n (e ++ w)) (take n (e ++ w)) ≡ f w e
  split_blob f e w n h = rw (sym h, take-append e w, drop-append e w) refl

  long_blob :
      (e w : Bytes)
      → length e ≡ rk_pub_len
      → 1 ≤ length w
      → leb (length (e ++ w)) rk_pub_len ≡ false
  long_blob e w h k = ground (arith, length-append e w)

  unseal_blob-seal_blob :
      (pub_key priv_key share : Bytes)
      → IsSealing pub_key priv_key
      → IsBytes share
      → unseal_blob crypto (seal_blob crypto share pub_key) priv_key ≡ some share
  unfolding unseal_blob seal_blob
  unseal_blob-seal_blob pub_key priv_key share law b =
      let w = crypto.wrap_cek share pub_key in
      rw
        (
          from_hex-to_hex (w.eph_pub ++ w.wrapped) (law.bytes share b),
          long_blob w.eph_pub w.wrapped (law.eph_len share) (law.not_empty share),
        )
        (split_blob (λ x y. crypto.unwrap_cek x y priv_key) w.eph_pub w.wrapped rk_pub_len
            (law.eph_len share)
          ∙ law.opens share b)

  module _ (rk_priv : Bytes) (law : OpensBytes rk_priv) where
    unseal_bytes-IsBytes :
        (blob share : Bytes) → unseal_bytes crypto blob rk_priv ≡ some share → IsBytes share
    unseal_bytes-IsBytes blob share h = elim (Bool-cases (leb (length blob) rk_pub_len)) [
      | inl q ↦ absurd (none-ne-some share (rw q at h))
      | inr q ↦ law.bytes (drop rk_pub_len blob) (take rk_pub_len blob) share (rw q at h)
    ]

    -- one more blob
    collect_some-IsCollection :
        (o : Option Bytes) (collected : List (Text × Bytes))
        → ((s : Bytes) → o ≡ some s → IsBytes s)
        → IsCollection collected
        → IsCollection (collect_some crypto o collected)
    collect_some-IsCollection none collected b h = h
    collect_some-IsCollection (some s) collected b h = collect-IsCollection s collected (b s refl) h

    collect_some-keeps :
        (o : Option Bytes) (u : Bytes) (collected : List (Text × Bytes))
        → ((s : Bytes) → o ≡ some s → IsBytes s)
        → IsCollection collected
        → In u (shares_of collected)
        → In u (shares_of (collect_some crypto o collected))
    collect_some-keeps none u collected b h i = i
    collect_some-keeps (some s) u collected b h i = collect-keeps s u collected (b s refl) h i

    collect_some-In :
        (o : Option Bytes) (u : Bytes) (collected : List (Text × Bytes))
        → o ≡ some u
        → In u (shares_of (collect_some crypto o collected))
    collect_some-In none u collected q = absurd (none-ne-some u q)
    collect_some-In (some s) u collected q = rw (← some-injective s u q) (collect-In s collected)

    unseal_blob-IsBytes :
        (hex : Text) (s : Bytes) → unseal_blob crypto hex rk_priv ≡ some s → IsBytes s
    unfolding unseal_blob
    unseal_blob-IsBytes hex s h = unseal_bytes-IsBytes (from_hex hex) s h

    collect_blobs-keeps :
        (u : Bytes) (blobs : List Text) (collected : List (Text × Bytes))
        → IsCollection collected
        → In u (shares_of collected)
        → In u (shares_of (collect_blobs crypto rk_priv blobs collected))
    unfolding collect_blobs
    collect_blobs-keeps u [] collected h i = i
    collect_blobs-keeps u (hex ∷ blobs) collected h i =
        let o = unseal_blob crypto hex rk_priv in
        collect_blobs-keeps u blobs _
          (collect_some-IsCollection o collected (unseal_blob-IsBytes hex) h)
          (collect_some-keeps o u collected (unseal_blob-IsBytes hex) h i)

    collect_blobs-In :
        (hex : Text) (u : Bytes) (blobs : List Text) (collected : List (Text × Bytes))
        → IsCollection collected
        → In hex blobs
        → unseal_blob crypto hex rk_priv ≡ some u
        → In u (shares_of (collect_blobs crypto rk_priv blobs collected))
    unfolding collect_blobs
    collect_blobs-In hex u [] collected h i q = absurd i
    collect_blobs-In hex u (x ∷ blobs) collected h i q =
        let o = unseal_blob crypto x rk_priv in
        let c = collect_some-IsCollection o collected (unseal_blob-IsBytes x) h in
        elim i [
          | inl e ↦
              collect_blobs-keeps u blobs _ c
                (collect_some-In o u collected (ap (λ t. unseal_blob crypto t rk_priv) (sym e) ∙ q))
          | inr j ↦ collect_blobs-In hex u blobs _ c j q
        ]

  approved :
      (my_priv rk_pub share : Bytes) (stored : List ShareWire) (hex : Text)
      → find_share crypto my_priv stored ≡ some share
      → approved_blob crypto my_priv rk_pub stored ≡ done hex
      → hex ≡ seal_blob crypto share rk_pub
  unfolding approved_blob
  approved my_priv rk_pub share stored hex h e =
      done-injective hex _ (sym (rw (approved_blob, h) at e))

-- Two contacts that each find a share among the stored ones and approve the recovery post blobs. When the
-- bucket holds both, among other posts and with shares collected before, the pass gives the seed: if the
-- two shares are different and open it, no two of all the shares that the pass collects open another seed,
-- and wrapping works as documented for the key pair of the recovery.
pub unseal_and_reconstruct-seed :
    (crypto : ContactRecoveryCrypto) (seed rk_pub rk_priv priv_a priv_b a b : Bytes)
    (stored : List ShareWire) (hex_a hex_b : Text) (blobs : List Text)
    (collected : List (Text × Bytes))
    → IsValidating crypto seed (shares_of (collect_blobs crypto rk_priv blobs collected))
    → IsPair crypto seed a b
    → IsBytes a
    → IsBytes b
    → IsSealing crypto rk_pub rk_priv
    → OpensBytes crypto rk_priv
    → find_share crypto priv_a stored ≡ some a
    → find_share crypto priv_b stored ≡ some b
    → approved_blob crypto priv_a rk_pub stored ≡ done hex_a
    → approved_blob crypto priv_b rk_pub stored ≡ done hex_b
    → In hex_a blobs
    → In hex_b blobs
    → IsCollection collected
    → (unseal_and_reconstruct crypto rk_priv blobs collected).0 ≡ some seed
unfolding unseal_and_reconstruct
unseal_and_reconstruct-seed crypto seed rk_pub rk_priv priv_a priv_b a b stored hex_a hex_b blobs
      collected valid pair a_bytes b_bytes sealing bytes fa fb pa pb ia ib c =
    try_reconstruct-seed crypto seed (shares_of (collect_blobs crypto rk_priv blobs collected))
      valid a b _ pair (λ u k. k)
      (collect_blobs-In crypto rk_priv bytes hex_a a blobs collected c ia (
        ap (λ t. unseal_blob crypto t rk_priv) (approved crypto priv_a rk_pub a stored hex_a fa pa)
        ∙ unseal_blob-seal_blob crypto rk_pub rk_priv a sealing a_bytes))
      (collect_blobs-In crypto rk_priv bytes hex_b b blobs collected c ib (
        ap (λ t. unseal_blob crypto t rk_priv) (approved crypto priv_b rk_pub b stored hex_b fb pb)
        ∙ unseal_blob-seal_blob crypto rk_pub rk_priv b sealing b_bytes))
