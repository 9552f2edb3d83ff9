-- ===== src/Money/Manual.antt =====
-- What `ValidateManualSplit` accepts.
use mlakp_backend.Base.{
  ℕ, zero, suc, ◌+◌, ◌-◌, ◌%◌, ◌^◌, ◌≤◌, ◌<◌, ◌≡◌, ◌≢◌, refl, ap, [], ◌∷◌, List, arith, All, length,
  sum, ok, err, pos, negsuc, ℤ, map, inl, inr, Bool-cases, Result-cases, ltb,
}
use mlakp_backend.Decimal.{max_int64}
use mlakp_backend.Money.{IsInt64, split_mismatch, manual_sum, validate_manual_split}

manual_sum_ok :
    (shares : List ℤ) (acc r : ℕ)
    → acc ≤ max_int64
    → All IsInt64 shares
    → manual_sum shares acc ≡ ok r
    → (ns : List ℕ) × (shares ≡ map pos ns) × All (λ n. 0 < n) ns × (r ≡ acc + sum ns)
unfolding manual_sum
manual_sum_ok [] acc r fits typed h = ([], refl, tt, ground arith)
manual_sum_ok (negsuc n ∷ shares) acc r fits typed h = cc
manual_sum_ok (pos zero ∷ shares) acc r fits typed h = cc
manual_sum_ok (pos (suc n) ∷ shares) acc r fits typed h =
    elim (Bool-cases (ltb (max_int64 - suc n) acc)) [
      | inl e ↦ absurd (ground arith)
      | inr e ↦
          let fit : suc n ≤ max_int64 = typed.0 in
          let small : acc + suc n ≤ max_int64 = ground arith in
          let exact : (acc + suc n) % 2 ^ 64 ≡ acc + suc n = omega arith in
          let raw : manual_sum shares ((acc + suc n) % 2 ^ 64) ≡ ok r = ground arith in
          let h' : manual_sum shares (acc + suc n) ≡ ok r = rw exact at raw in
          let (ns, same, each, total) = manual_sum_ok shares (acc + suc n) r small typed.1 h' in
          (suc n ∷ ns, rw same, (omega arith, each), omega arith)
    ]

length_pos : (s : ℤ) (shares : List ℤ) (ns : List ℕ) → s ∷ shares ≡ map pos ns → 0 < length ns
length_pos s shares [] h = cc
length_pos s shares (n ∷ ns) h = omega arith

-- A manual split of int64 amounts that is accepted has positive shares only, at least one, and their sum, taken
-- without any wrap-around, is the total.
pub validate_manual_split_sound :
    (total : ℤ) (shares : List ℤ)
    → All IsInt64 shares
    → validate_manual_split total shares ≡ ok tt
    → (ns : List ℕ) × (shares ≡ map pos ns)
      × (0 < length ns)
      × All (λ n. 0 < n) ns
      × (total ≡ pos (sum ns))
unfolding validate_manual_split
validate_manual_split_sound (negsuc n) shares typed h = cc
validate_manual_split_sound (pos t) [] typed h = absurd (ground arith)
validate_manual_split_sound (pos t) (s ∷ shares) typed h =
    elim (Result-cases (manual_sum (s ∷ shares) 0)) [
      | inl (r, e) ↦
          let (ns, same, each, total) = manual_sum_ok (s ∷ shares) 0 r (omega arith) typed e in
          let exact : r ≡ t = ground arith in
          (ns, same, length_pos s shares ns same, each, ap pos (omega arith))
      | inr (e, failed) ↦ absurd (ground arith)
    ]

manual_sum-map :
    (ns : List ℕ) (acc : ℕ)
    → All (λ n. 0 < n) ns
    → acc + sum ns ≤ max_int64
    → manual_sum (map pos ns) acc ≡ ok (acc + sum ns)
unfolding manual_sum
manual_sum-map [] acc h fits = ground arith
manual_sum-map (zero ∷ ns) acc (h, hs) fits = absurd (omega arith)
manual_sum-map (suc n ∷ ns) acc (h, hs) fits =
    let exact : (acc + suc n) % 2 ^ 64 ≡ acc + suc n = omega arith in
    rw exact (ground (arith, manual_sum-map ns (acc + suc n) hs (omega arith)))

-- Positive shares whose sum is an int64 are accepted where the sum is the total, and refused with
-- the mismatch error where it is another positive total.
pub validate_manual_split_complete :
    (t : ℕ) (ns : List ℕ)
    → 0 < t
    → 0 < length ns
    → All (λ n. 0 < n) ns
    → sum ns ≤ max_int64
    → (sum ns ≡ t → validate_manual_split (pos t) (map pos ns) ≡ ok tt)
      × (sum ns ≢ t → validate_manual_split (pos t) (map pos ns) ≡ err split_mismatch)
unfolding validate_manual_split
validate_manual_split_complete t [] p q all fits = absurd (omega arith)
validate_manual_split_complete t (n ∷ ns) p q all fits =
    let total = manual_sum-map (n ∷ ns) 0 all (omega arith) in
    (λ e. ground (arith, total), λ e. ground (arith, total))
