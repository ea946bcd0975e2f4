-- ===== src/Recovery/Collected.antt =====
-- The shares that a recovery has collected, by their hexadecimal form (apps/web/src/services/recovery.ts).
use privex.Prelude.{
  ◌≡◌, refl, sym, ◌∙◌, inl, inr, List, [], ◌∷◌, map, ◌==◌, eq_of_beq, bytes_eq, Bool-cases, All, In,
}
use privex.Crypto.Hex.{Bytes, Text, IsBytes, to_hex, to_hex-injective}
use privex.Recovery.{collect}

-- each share is under its hexadecimal form, and is bytes
abbrev pub IsCollection : List (Text × Bytes) → Type 0
IsCollection collected = All (λ (e : Text × Bytes). (e.0 ≡ to_hex e.1) × IsBytes e.1) collected

abbrev pub shares_of : List (Text × Bytes) → List Bytes
shares_of collected = map (λ (e : Text × Bytes). e.1) collected

pub collect-IsCollection :
    (share : Bytes) (collected : List (Text × Bytes))
    → IsBytes share
    → IsCollection collected
    → IsCollection (collect share collected)
unfolding collect
collect-IsCollection share [] b h = ((refl, b), tt)
collect-IsCollection share ((k, v) ∷ rest) b (h, hs) = elim (Bool-cases (k == to_hex share)) [
  | inl q ↦ rw q ((eq_of_beq k (to_hex share) q, b), hs)
  | inr q ↦ rw q (h, collect-IsCollection share rest b hs)
]

pub collect-In :
    (share : Bytes) (collected : List (Text × Bytes))
    → In share (shares_of (collect share collected))
unfolding collect
collect-In share [] = inl refl
collect-In share ((k, v) ∷ rest) = elim (Bool-cases (k == to_hex share)) [
  | inl q ↦ rw q (inl refl)
  | inr q ↦ rw q (inr (collect-In share rest))
]

-- what was collected stays
pub collect-keeps :
    (share u : Bytes) (collected : List (Text × Bytes))
    → IsBytes share
    → IsCollection collected
    → In u (shares_of collected)
    → In u (shares_of (collect share collected))
unfolding collect
collect-keeps share u [] b h i = absurd i
collect-keeps share u ((k, v) ∷ rest) b ((e, v_bytes), hs) (inr i) =
    elim (Bool-cases (k == to_hex share)) [
      | inl q ↦ rw q (inr i)
      | inr q ↦ rw q (inr (collect-keeps share u rest b hs i))
    ]
collect-keeps share u ((k, v) ∷ rest) b ((e, v_bytes), hs) (inl i) =
    elim (Bool-cases (k == to_hex share)) [
      | inl q ↦
          rw q (inl (i ∙ to_hex-injective v share v_bytes b (sym e ∙ eq_of_beq k (to_hex share) q)))
      | inr q ↦ rw q (inl i)
    ]
