-- ===== src/Base/Double/Error.antt =====
-- How far a rounded number is from the exact one.
use native.Mathlib.Nat.{
  mul-one, mul_comm, mul_assoc, mul_right_comm, mul_left_comm, pow-suc, div-add-mod', mod-lt,
  mul-le-mul_right, lt-div-mul-add, div-mul-le_self,
}
use unouns_monorepo.Base.{
  ℕ, zero, suc, ◌+◌, ◌-◌, ◌*◌, ◌/◌, ◌%◌, ◌^◌, ◌≤◌, ◌<◌, ◌≡◌, refl, sym, ap, ◌∙◌, subst, arith, true,
  false, Bool, Bool-cases, inl, inr, ltb, leb, leb→le, ◌==◌,
}
use unouns_monorepo.Base.Double.{
  Double, whole, floor, ◌/ᵈ◌, ◌*ᵈ◌, round_even, grow, shrink, rounded,
}

-- a fraction is near another one: the difference is at most a part in 2 ^ 53 of the second one
abbrev pub IsNear : ℕ → ℕ → Double → Type 0
IsNear n d (m, p) =
    (2 ^ 53 * (m * d) ≤ (2 ^ 53 + 1) * (n * p))
    × ((2 ^ 53 - 1) * (n * p) ≤ 2 ^ 53 * (m * d))
    × (0 < p)

-- half of the denominator at most
round_even-near :
    (n d : ℕ)
    → 0 < d
    → (2 * (round_even n d * d) ≤ 2 * n + d) × (2 * n ≤ 2 * (round_even n d * d) + d)
unfolding round_even
round_even-near n d h =
    let next : suc (n / d) * d ≡ n / d * d + d = grind arith in
    let same : (n / d + 0) * d ≡ n / d * d = ap (λ q. q * d) (omega arith) in
    let odd : (n / d + 1) * d ≡ n / d * d + d = grind arith in
    let parts = div-add-mod' n d in
    let small = mod-lt n h in
    elim (Bool-cases (n / d % 2 == 0)) [
      | inl even ↦
          let zeroth : n / d % 2 ≡ 0 = ground (arith, even) in
          let tie : (n / d + n / d % 2) * d ≡ n / d * d = ap (λ r. (n / d + r) * d) zeroth ∙ same in
          ground (arith, parts, small, next, tie)
      | inr uneven ↦
          let first : n / d % 2 ≡ 1 = ground (arith, uneven) in
          let tie : (n / d + n / d % 2) * d ≡ n / d * d + d =
            ap (λ r. (n / d + r) * d) first ∙ odd in
          ground (arith, parts, small, next, tie)
    ]

-- with 53 binary digits before the point
digits-near :
    (n d : ℕ)
    → 0 < d
    → 2 ^ 52 * d ≤ n
    → (2 ^ 53 * (round_even n d * d) ≤ (2 ^ 53 + 1) * n)
      × ((2 ^ 53 - 1) * n ≤ 2 ^ 53 * (round_even n d * d))
digits-near n d h large =
    let (most, least) = round_even-near n d h in
    (omega (arith, most, large), omega (arith, least, large))

either-IsNear :
    (n d : ℕ) (b : Bool) (x y : Double)
    → (b ≡ true → IsNear n d x)
    → (b ≡ false → IsNear n d y)
    → IsNear n d (elim b as (λ t. Double) [ true ↦ x | false ↦ y ])
either-IsNear n d true x y h k = h refl
either-IsNear n d false x y h k = k refl

grown-IsNear :
    (n scaled d p : ℕ)
    → 0 < d
    → 0 < p
    → scaled ≡ n * p
    → 2 ^ 52 * d ≤ scaled
    → IsNear n d (round_even scaled d, p)
grown-IsNear n scaled d p h k same large =
    let (most, least) = digits-near scaled d h large in
    (
      subst (λ x. 2 ^ 53 * (round_even scaled d * d) ≤ (2 ^ 53 + 1) * x) same most,
      subst (λ x. (2 ^ 53 - 1) * x ≤ 2 ^ 53 * (round_even scaled d * d)) same least,
      k,
    )

shrunk-IsNear :
    (n d scaled s : ℕ)
    → 0 < scaled
    → scaled ≡ d * s
    → 2 ^ 52 * scaled ≤ n
    → IsNear n d (round_even n scaled * s, 1)
shrunk-IsNear n d scaled s h same large =
    let (most, least) = digits-near n scaled h large in
    let moved : round_even n scaled * s * d ≡ round_even n scaled * scaled =
      mul_right_comm (round_even n scaled) s d
      ∙ mul_assoc (round_even n scaled) d s
      ∙ ap (λ x. round_even n scaled * x) (sym same) in
    (omega (arith, most, moved), omega (arith, least, moved), omega arith)

grow-IsNear :
    (fuel n scaled d p : ℕ)
    → 0 < d
    → 0 < p
    → scaled ≡ n * p
    → 2 ^ 52 * d ≤ scaled * 2 ^ fuel
    → IsNear n d (grow fuel scaled d p)
unfolding grow
grow-IsNear zero n scaled d p h k same enough =
    let once : scaled * 2 ^ 0 ≡ scaled = mul-one scaled in
    grown-IsNear n scaled d p h k same (omega (arith, enough, once))
grow-IsNear (suc fuel) n scaled d p h k same enough =
    either-IsNear n d (ltb scaled (2 ^ 52 * d)) (grow fuel (2 * scaled) d (2 * p))
      (round_even scaled d, p)
      (λ small.
        let doubled : 2 * scaled ≡ n * (2 * p) = ap (λ x. 2 * x) same ∙ mul_left_comm 2 n p in
        let power : scaled * 2 ^ suc fuel ≡ 2 * scaled * 2 ^ fuel =
          ap (λ x. scaled * x) (pow-suc 2 fuel ∙ mul_comm (2 ^ fuel) 2)
          ∙ sym (mul_assoc scaled 2 (2 ^ fuel))
          ∙ ap (λ x. x * 2 ^ fuel) (mul_comm scaled 2) in
        grow-IsNear fuel n (2 * scaled) d (2 * p) h (omega (arith, k)) doubled
          (subst (λ x. 2 ^ 52 * d ≤ x) power enough))
      (λ large. grown-IsNear n scaled d p h k same (ground (arith, large)))

shrink-IsNear :
    (fuel n d scaled s : ℕ)
    → 0 < scaled
    → scaled ≡ d * s
    → 2 ^ 52 * scaled ≤ n
    → IsNear n d (shrink fuel n scaled s)
unfolding shrink
shrink-IsNear zero n d scaled s h same large = shrunk-IsNear n d scaled s h same large
shrink-IsNear (suc fuel) n d scaled s h same large =
    either-IsNear n d (ltb n (2 ^ 53 * scaled)) (round_even n scaled * s, 1)
      (shrink fuel n (2 * scaled) (2 * s)) (λ done. shrunk-IsNear n d scaled s h same large)
      (λ more.
        shrink-IsNear fuel n d (2 * scaled) (2 * s) (omega (arith, h))
          (ap (λ x. 2 * x) same ∙ mul_left_comm 2 d s) (ground (arith, more)))

-- A fraction that a double can hold is rounded to a near one.
pub rounded-IsNear : (n d : ℕ) → 0 < d → d ≤ 2 ^ 1022 → IsNear n d (rounded n d)
unfolding rounded
rounded-IsNear n d h small =
    either-IsNear n d (n == 0) (0, 1) _ (λ none. ground (arith, none))
      (λ positive.
        either-IsNear n d (ltb n (2 ^ 52 * d)) (grow 1074 n d 1) (shrink 1024 n d 1)
          (λ low.
            grow-IsNear 1074 n n d 1 h (omega arith) (sym (mul-one n))
              (let some_n : 0 < n = ground (arith, positive) in omega (arith, some_n, small)))
          (λ high. shrink-IsNear 1024 n d d 1 h (sym (mul-one d)) (ground (arith, high))))

-- the arithmetic of two roundings: `P` is the product of the two denominators, and `A`, `X`, `Y` and `B` are
-- the exact quotient, the two rounded ones and the floor over it
off_by_less_up :
    (A X Y B P : ℕ)
    → 2 ^ 53 * X ≤ (2 ^ 53 + 1) * A
    → 2 ^ 53 * Y ≤ (2 ^ 53 + 1) * (10000 * X)
    → B ≤ Y
    → A ≤ 10000 * P
    → 0 < P
    → B < 10000 * A + P
off_by_less_up A X Y B P h k l few positive = omega (arith, h, k, l, few, positive)

off_by_less_down :
    (A X Y C P : ℕ)
    → (2 ^ 53 - 1) * A ≤ 2 ^ 53 * X
    → (2 ^ 53 - 1) * (10000 * X) ≤ 2 ^ 53 * Y
    → Y ≤ C
    → A ≤ 10000 * P
    → 0 < P
    → 10000 * A < C + P
off_by_less_down A X Y C P h k l few positive = omega (arith, h, k, l, few, positive)

-- whole numbers whose multiples differ by less than the factor
whole_le : (m n P : ℕ) → m * P < n * P + P → m ≤ n
whole_le m n P h = elim (Bool-cases (leb m n)) [
  | inl le ↦ leb→le m n le
  | inr lt ↦
      let above : suc n * P ≤ m * P = mul-le-mul_right P (ground (arith, lt)) in
      let next : suc n * P ≡ n * P + P = grind arith in absurd (omega (arith, h, above, next))
]

floor-near :
    (a t m₁ p₁ m₂ p₂ : ℕ)
    → a ≤ 10000
    → IsNear a t (m₁, p₁)
    → IsNear (m₁ * 10000) p₁ (m₂, p₂)
    → (m₂ / p₂ * t ≤ a * 10000) × (a * 10000 ≤ m₂ / p₂ * t + t)
floor-near a t m₁ p₁ m₂ p₂ few (most₁, least₁, positive₁) (most₂, least₂, positive₂) =
    let P = p₁ * p₂ in
    let A = a * P in
    let X = m₁ * t * p₂ in
    let Y = m₂ * p₁ * t in
    let q = m₂ / p₂ in
    let small : A ≤ 10000 * P = mul-le-mul_right P few in
    let some_P : 0 < P = grind arith in
    let up₁ : 2 ^ 53 * X ≤ (2 ^ 53 + 1) * A = grind (arith, mul-le-mul_right p₂ most₁) in
    let up₂ : 2 ^ 53 * Y ≤ (2 ^ 53 + 1) * (10000 * X) = grind (arith, mul-le-mul_right t most₂) in
    let down₁ : (2 ^ 53 - 1) * A ≤ 2 ^ 53 * X = grind (arith, mul-le-mul_right p₂ least₁) in
    let down₂ : (2 ^ 53 - 1) * (10000 * X) ≤ 2 ^ 53 * Y =
      grind (arith, mul-le-mul_right t least₂) in
    let floored : q * t * P ≤ Y =
      grind (arith, mul-le-mul_right (p₁ * t) (div-mul-le_self m₂ p₂)) in
    let next : Y ≤ (q * t + t) * P =
      grind (arith, mul-le-mul_right (p₁ * t) (lt-div-mul-add {a = m₂} positive₂)) in
    let tens : a * 10000 * P ≡ 10000 * A = grind arith in
    (
      whole_le (q * t) (a * 10000) P
          (omega (arith, tens, off_by_less_up A X Y (q * t * P) P up₁ up₂ floored small some_P)),
      whole_le (a * 10000) (q * t + t) P (
          omega (
            arith,
            tens,
            off_by_less_down A X Y ((q * t + t) * P) P down₁ down₂ next small some_P,
          )),
    )

either-small :
    (b : Bool) (bound : ℕ) (x y : Double)
    → (b ≡ true → x.1 ≤ bound)
    → (b ≡ false → y.1 ≤ bound)
    → (elim b as (λ t. Double) [ true ↦ x | false ↦ y ]).1 ≤ bound
either-small true bound x y h k = h refl
either-small false bound x y h k = k refl

grow-small :
    (fuel scaled d p : ℕ) → p ≤ scaled → p ≤ 2 ^ 53 * d → (grow fuel scaled d p).1 ≤ 2 ^ 53 * d
unfolding grow
grow-small zero scaled d p h k = k
grow-small (suc fuel) scaled d p h k =
    either-small (ltb scaled (2 ^ 52 * d)) (2 ^ 53 * d) (grow fuel (2 * scaled) d (2 * p))
      (round_even scaled d, p)
      (λ low.
        let few : scaled < 2 ^ 52 * d = ground (arith, low) in
        grow-small fuel (2 * scaled) d (2 * p) (omega (arith, h)) (omega (arith, h, few)))
      (λ high. k)

shrink-small : (fuel n d s : ℕ) → (shrink fuel n d s).1 ≤ 1
unfolding shrink
shrink-small zero n d s = omega arith
shrink-small (suc fuel) n d s =
    either-small (ltb n (2 ^ 53 * d)) 1 (round_even n d * s, 1) (shrink fuel n (2 * d) (2 * s))
      (λ done. omega arith) (λ more. shrink-small fuel n (2 * d) (2 * s))

-- the denominator grows to 2 ^ 53 times itself at most
rounded-small : (n d : ℕ) → 0 < d → (rounded n d).1 ≤ 2 ^ 53 * d
unfolding rounded
rounded-small n d h =
    either-small (n == 0) (2 ^ 53 * d) (0, 1) _ (λ none. omega (arith, h))
      (λ positive.
        let some_n : 0 < n = ground (arith, positive) in
        either-small (ltb n (2 ^ 52 * d)) (2 ^ 53 * d) (grow 1074 n d 1) (shrink 1024 n d 1)
          (λ low. grow-small 1074 n d 1 (omega (arith, some_n)) (omega (arith, h)))
          (λ high. let one = shrink-small 1024 n d 1 in omega (arith, one, h)))

-- The floor of a quotient that is multiplied by 10000, as JavaScript computes it: the floor of a number
-- that is so near the exact one that it is off only where that is whole.
pub floor_bps-near :
    (a t : ℕ)
    → a ≤ 10000
    → 0 < t
    → t ≤ 10000
    → let bps = floor (whole a /ᵈ whole t *ᵈ whole 10000) in
      (bps * t ≤ a * 10000) × (a * 10000 ≤ bps * t + t)
unfolding ◌/ᵈ◌ ◌*ᵈ◌ floor
floor_bps-near a t few h small =
    let same : rounded (a * 1) (1 * t) ≡ rounded a t =
      ap (λ x. rounded x (1 * t)) (mul-one a) ∙ ap (rounded a) (omega arith) in
    let near = rounded-IsNear a t h (omega (arith, small)) in
    let low = rounded-small a t h in
    let x = rounded a t in
    let tens = x.0 * 10000 in
    let next = rounded-IsNear tens x.1 near.2 (omega (arith, low, small)) in
    let y = rounded tens x.1 in
    let floored = floor-near a t x.0 x.1 y.0 y.1 few near next in
    let last : rounded ((rounded (a * 1) (1 * t)).0 * 10000) ((rounded (a * 1) (1 * t)).1 * 1) ≡ y =
      ap (λ z. rounded (z.0 * 10000) (z.1 * 1)) same ∙ ap (rounded tens) (mul-one x.1) in
    subst (λ z. (z.0 / z.1 * t ≤ a * 10000) × (a * 10000 ≤ z.0 / z.1 * t + t)) (sym last) floored
