-- ===== src/Ingest/Dashboard/Downsampling.antt =====
-- pkg/ingest/dashboard.go: how many points an answer has.
use native.Mathlib.Nat.{le_refl, div-add-mod, le_of_mul-le-mul_right, lt_of_mul-lt-mul_right}
use mathlib.Core.Path.{subst}
use tinyobs.Base.{
  ℕ, zero, suc, ◌+◌, ◌-◌, ◌*◌, ◌/◌, ◌%◌, sym, ◌≡◌, ◌≤◌, ◌<◌, refl, List, [], ◌∷◌, false, length,
  drop, take, ltb, leb, if◌then◌else◌, Bool-cases, inl, inr, arith,
}
use tinyobs.Float.{FloatOps}
use tinyobs.Ingest.Dashboard.{Point, average_bucket, bucket_loop, downsample_points}
use tinyobs.Query.Outcome.{ok}

length-drop {ℓ} : {A : Type ℓ} (n : ℕ) (xs : List A) → length (drop n xs) ≡ length xs - n
length-drop zero xs = omega arith
length-drop (suc n) [] = omega arith
length-drop (suc n) (x ∷ xs) = omega (arith, length-drop n xs)

none_fit : (c b : ℕ) → c * suc b ≤ b → c ≡ 0
none_fit zero b h = refl
none_fit (suc c) b h = absurd (grind (arith, h))

-- One bucket more.
cover : (n c b : ℕ) → n - b ≤ c * suc b → suc n ≤ suc c * suc b
cover n c b h = grind (arith, h)

tighten : (n c b : ℕ) → c * suc b ≤ n - b + b → suc c * suc b ≤ suc n + b
tighten n c b h = elim (Bool-cases (ltb n b)) [
  | inl few ↦ rw (none_fit c b (ground (arith, h))) (omega arith)
  | inr many ↦ grind (arith, h, many)
]

-- The bounds on the number `c` of buckets for `suc m` points wanted.
at_least : (c m b r : ℕ) → suc m * suc b + r ≤ c * suc b → suc m ≤ c
at_least c m b r h =
    le_of_mul-le-mul_right {m = suc m} {n = c} {k = suc b} (omega (arith, h)) (omega arith)

below_double : (c m b r : ℕ) → r ≤ m → c * suc b ≤ suc m * suc b + r + b → c < 2 * suc m
below_double c m b r h k =
    lt_of_mul-lt-mul_right (suc b) {m = c} {n = 2 * suc m} (grind (arith, h, k))

-- A length as whole buckets and a remainder.
as_buckets :
    (n m : ℕ)
    → suc m < n
    → (b : ℕ) × (r : ℕ) × (n / suc m ≡ suc b) × (n ≡ suc m * suc b + r) × (r ≤ m)
as_buckets n m h = go (n / suc m) refl
  where
    sum : (q : ℕ) → n / suc m ≡ q → n ≡ suc m * q + n % suc m
    sum q e = sym (subst (λ x. suc m * x + n % suc m ≡ n) e (div-add-mod n (suc m)))

    go :
        (q : ℕ)
        → n / suc m ≡ q
        → (b : ℕ) × (r : ℕ) × (q ≡ suc b) × (n ≡ suc m * suc b + r) × (r ≤ m)
    go zero e = absurd (omega (arith, h, sum zero e))
    go (suc b) e = (b, n % suc m, refl, sum (suc b) e, omega arith)

size_less_one : (b : ℕ) → (if ltb (suc b) 1 then 1 else suc b) - 1 ≡ b
size_less_one b = ground arith

module _ {V : Type 0} ⦃F : FloatOps V⦄ where
  -- What the loop makes: as many buckets of `suc b` points as cover the points, and no more.
  bucket_loop-length :
      (fuel b : ℕ) (ps : List (Point V))
      → length ps ≤ fuel
      → (qs : List (Point V)) × (bucket_loop fuel b ps ≡ ok qs)
        × (length ps ≤ length qs * suc b)
        × (length qs * suc b ≤ length ps + b)
  unfolding bucket_loop
  bucket_loop-length fuel b [] h = ([], refl, omega arith, omega arith)
  bucket_loop-length zero b (p ∷ ps) h = absurd (omega arith)
  bucket_loop-length (suc fuel) b (p ∷ ps) h =
      let (qs, e, covers, tight) =
        bucket_loop-length fuel b (drop b ps) (omega (arith, h, length-drop b ps)) in
      (
        average_bucket p (take b ps) ∷ qs,
        rw e refl,
        cover (length ps) (length qs) b (omega (arith, covers, length-drop b ps)),
        tighten (length ps) (length qs) b (omega (arith, tight, length-drop b ps)),
      )

  -- A series with more points than wanted is thinned out to at least as many as wanted, and to
  -- less than twice as many.
  pub downsample_points-length :
      (ps : List (Point V)) (max_points : ℕ)
      → 0 < max_points
      → max_points < length ps
      → (qs : List (Point V)) × (downsample_points ps max_points ≡ ok qs)
        × (max_points ≤ length qs)
        × (length qs < 2 * max_points)
  unfolding downsample_points
  downsample_points-length ps zero some_wanted long = absurd (omega (arith, some_wanted))
  downsample_points-length ps (suc m) some_wanted long =
      let (b, r, whole, parts, small) = as_buckets (length ps) m long in
      let (qs, e, covers, tight) = bucket_loop-length (length ps) b ps (le_refl (length ps)) in
      let longer : leb (length ps) (suc m) ≡ false = ground (arith, long) in
      (
        qs,
        rw (longer, whole, size_less_one b) e,
        at_least (length qs) m b r (rw (← parts) covers),
        below_double (length qs) m b r small (rw (← parts) tight),
      )
