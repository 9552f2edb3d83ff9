-- ===== src/Money/Split.antt =====
-- What `SplitEqual` (internal/money/money.go) returns.
use mlakp_backend.Base.{
  ℕ, zero, suc, ◌+◌, ◌*◌, ◌/◌, ◌%◌, ◌≤◌, ◌<◌, ◌≡◌, refl, List, arith, All, length, sum, ok, err,
  pos, negsuc, ℤ, All-map,
}
use native.Mathlib.Nat.{div-add-mod}
use mlakp_backend.Money.{invalid_split, equal_shares, split_positive, split_equal}

-- The loop's remaining rounds give the base to each and one unit to the last `remainder`.
sum-equal_shares :
    (k i p b r : ℕ)
    → i + k ≡ p
    → r ≤ p
    → (k ≤ r → sum (equal_shares k i p b r) ≡ k * b + k)
      × (r ≤ k → sum (equal_shares k i p b r) ≡ k * b + r)
unfolding equal_shares
sum-equal_shares zero i p b r e h = (λ q. omega arith, λ q. omega arith)
sum-equal_shares (suc k) i p b r e h =
    let ih = sum-equal_shares k (i + 1) p b r (omega arith) h in
    (λ q. grind (arith, ih.0, ih.1), λ q. grind (arith, ih.0, ih.1))

sum_split : (n p : ℕ) → 0 < p → sum (equal_shares p 0 p (n / p) (n % p)) ≡ n
sum_split n p h =
    let below : n % p < p = omega arith in
    let (_, total) = sum-equal_shares p 0 p (n / p) (n % p) (omega arith) (omega arith) in
    grind (arith, total (omega arith), div-add-mod n p)

length-equal_shares : (k i p b r : ℕ) → length (equal_shares k i p b r) ≡ k
unfolding equal_shares
length-equal_shares zero i p b r = refl
length-equal_shares (suc k) i p b r = omega (arith, length-equal_shares k (i + 1) p b r)

All-equal_shares : (k i p b r : ℕ) → All (λ s. (b ≤ s) × (s ≤ b + 1)) (equal_shares k i p b r)
unfolding equal_shares
All-equal_shares zero i p b r = tt
All-equal_shares (suc k) i p b r = ground (arith, All-equal_shares k (i + 1) p b r)

div_of_lt : (n p : ℕ) → n < p → n / p ≡ 0
div_of_lt n p h = grind arith

div_pos : (n p : ℕ) → 0 < p → p ≤ n → 0 < n / p
div_pos n p q h = grind arith

split_positive_ok :
    (n p : ℕ) (shares : List ℕ)
    → split_positive n p ≡ ok shares
    → (0 < p) × (0 < n / p) × (shares ≡ equal_shares p 0 p (n / p) (n % p))
unfolding split_positive
split_positive_ok n p shares h = ground arith

-- An equal split that succeeds has one share for each participant, the shares make up the total to
-- the unit, each is positive, and no two differ by more than one unit.
pub split_equal_sound :
    (total participants : ℤ) (shares : List ℕ)
    → split_equal total participants ≡ ok shares
    → (n p : ℕ) × (total ≡ pos n)
      × (participants ≡ pos p)
      × (length shares ≡ p)
      × (sum shares ≡ n)
      × All (λ s. (0 < s) × (n / p ≤ s) × (s ≤ n / p + 1)) shares
unfolding split_equal
split_equal_sound (pos n) (pos p) shares h =
    let (0<p, 0<b, e) = split_positive_ok n p shares h in
    (
      n,
      p,
      refl,
      refl,
      rw e (length-equal_shares p 0 p (n / p) (n % p)),
      rw e (sum_split n p 0<p),
      rw e (
          All-map _ _ (equal_shares p 0 p (n / p) (n % p)) (λ s (lo, hi). (omega arith, lo, hi))
            (All-equal_shares p 0 p (n / p) (n % p))),
    )
split_equal_sound (pos n) (negsuc p) shares h = cc
split_equal_sound (negsuc n) p shares h = cc

-- There is a participant, and a unit for each of them.
pub IsSplittable : ℤ → ℤ → Type 0
IsSplittable total (negsuc p) = ⊥
IsSplittable (negsuc n) (pos p) = ⊥
IsSplittable (pos n) (pos p) = (0 < p) × (p ≤ n)

-- An equal split, of any amount among any number, succeeds where there is a participant and a unit
-- for each of them, and is refused as invalid everywhere else.
pub split_equal_complete :
    (total participants : ℤ)
    → (IsSplittable total participants
        → (shares : List ℕ) × (split_equal total participants ≡ ok shares))
      × (¬ IsSplittable total participants → split_equal total participants ≡ err invalid_split)
unfolding split_equal IsSplittable
split_equal_complete (pos n) (pos p) = (
  λ h. (equal_shares p 0 p (n / p) (n % p), ground (arith, div_pos n p)),
  λ h. ground (arith, div_of_lt n p),
)
split_equal_complete (negsuc n) (pos p) = (λ h. absurd h, λ h. refl)
split_equal_complete (pos n) (negsuc p) = (λ h. absurd h, λ h. refl)
split_equal_complete (negsuc n) (negsuc p) = (λ h. absurd h, λ h. refl)
