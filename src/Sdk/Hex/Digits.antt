-- ===== src/Sdk/Hex/Digits.antt =====
-- Hexadecimal texts and the numbers that they stand for.
use unouns_monorepo.Base.{
  ℕ, zero, suc, ◌+◌, ◌*◌, ◌/◌, ◌%◌, ◌^◌, ◌≤◌, ◌<◌, ◌≡◌, inl, inr, refl, sym, subst, ap, ◌∙◌, arith,
  true, false, none, some, [], ◌∷◌, ◌++◌, ltb, if◌then◌else◌, length, take, drop, take-append-drop,
  Bool-cases,
}
use unouns_monorepo.Base.{leb, ◌&&◌}
use native.Mathlib.Nat.{pow-suc, pow-le-pow_right, mul-add-mod_self_right, mod-eq_of_lt}
use unouns_monorepo.Base.Text.{Text}
use unouns_monorepo.Sdk.Hex.{
  digit, digits, hex_value, AllHex, hex_value-digit, parse_digits, parse_hex,
}

hex_value_lt : (c d : ℕ) → hex_value c ≡ some d → d < 16
unfolding hex_value
hex_value_lt c d h = elim (Bool-cases (leb 48 c && leb c 57)) [
  | inl a ↦ ground arith
  | inr a ↦ elim (Bool-cases (leb 97 c && leb c 102)) [
    | inl b ↦ ground arith
    | inr b ↦ ground arith
  ]
]

parse_digits-nil : (acc : ℕ) → parse_digits acc [] ≡ acc
unfolding parse_digits
parse_digits-nil acc = refl

parse_digits-step :
    (acc d c : ℕ) (s : Text)
    → hex_value c ≡ some d
    → parse_digits acc (c ∷ s) ≡ parse_digits (acc * 16 + d) s
unfolding parse_digits
parse_digits-step acc d c s h =
    ap (λ o. elim o [ none ↦ acc | some e ↦ parse_digits (acc * 16 + e) s ]) h

pub parse_digits-first :
    (d c : ℕ) (s : Text) → hex_value c ≡ some d → parse_digits 0 (c ∷ s) ≡ parse_digits d s
parse_digits-first d c s h =
    parse_digits-step 0 d c s h ∙ ap (λ (n : ℕ). parse_digits n s) (omega arith)

-- the power of one more digit
more_digits : (acc d p r : ℕ) → (acc * 16 + d) * p + r ≡ acc * (p * 16) + (d * p + r)
more_digits acc d p r = omega arith

less_digits : (d p r : ℕ) → d < 16 → r < p → d * p + r < p * 16
less_digits d p r h k = grind arith

-- the number of a text, from what was read before it
parse_digits-shift :
    (acc : ℕ) (s : Text) → AllHex s → parse_digits acc s ≡ acc * 16 ^ length s + parse_digits 0 s
parse_digits-shift acc [] h = ground (arith, parse_digits-nil acc, parse_digits-nil 0)
parse_digits-shift acc (c ∷ s) ((d, value), h) =
    parse_digits-step acc d c s value
    ∙ parse_digits-shift (acc * 16 + d) s h
    ∙ more_digits acc d (16 ^ length s) (parse_digits 0 s)
    ∙ ap (λ p. acc * p + (d * 16 ^ length s + parse_digits 0 s)) (sym (pow-suc 16 (length s)))
    ∙ ap (λ r. acc * 16 ^ suc (length s) + r)
        (sym (parse_digits-first d c s value ∙ parse_digits-shift d s h))

parse_digits_lt : (s : Text) → AllHex s → parse_digits 0 s < 16 ^ length s
parse_digits_lt [] h = ground (arith, parse_digits-nil 0)
parse_digits_lt (c ∷ s) ((d, value), h) =
    subst (λ r. r < 16 ^ suc (length s))
      (sym (parse_digits-first d c s value ∙ parse_digits-shift d s h))
      (subst (λ p. d * 16 ^ length s + parse_digits 0 s < p) (sym (pow-suc 16 (length s)))
        (less_digits d (16 ^ length s) (parse_digits 0 s) (hex_value_lt c d value)
          (parse_digits_lt s h)))

pub AllHex-append : (s t : Text) → AllHex s → AllHex t → AllHex (s ++ t)
AllHex-append [] t h k = k
AllHex-append (c ∷ s) t h k = (h.0, AllHex-append s t h.1 k)

pub AllHex-drop : (n : ℕ) (s : Text) → AllHex s → AllHex (drop n s)
AllHex-drop zero s h = h
AllHex-drop (suc n) [] h = tt
AllHex-drop (suc n) (c ∷ s) h = AllHex-drop n s h.1

parse_digits-append :
    (acc : ℕ) (s t : Text)
    → AllHex s
    → parse_digits acc (s ++ t) ≡ parse_digits (parse_digits acc s) t
parse_digits-append acc [] t h = ap (λ n. parse_digits n t) (sym (parse_digits-nil acc))
parse_digits-append acc (c ∷ s) t ((d, value), h) =
    parse_digits-step acc d c (s ++ t) value
    ∙ parse_digits-append (acc * 16 + d) s t h
    ∙ ap (λ n. parse_digits n t) (sym (parse_digits-step acc d c s value))

digits-small : (fuel n : ℕ) → ltb n 16 ≡ true → digits 16 (suc fuel) n ≡ digit n ∷ []
unfolding digits
digits-small fuel n h =
    ap (λ b. if b then digit n ∷ [] else digits 16 fuel (n / 16) ++ digit (n % 16) ∷ []) h

digits-big :
    (fuel n : ℕ)
    → ltb n 16 ≡ false
    → digits 16 (suc fuel) n ≡ digits 16 fuel (n / 16) ++ digit (n % 16) ∷ []
unfolding digits
digits-big fuel n h =
    ap (λ b. if b then digit n ∷ [] else digits 16 fuel (n / 16) ++ digit (n % 16) ∷ []) h

AllHex-digit : (d : ℕ) → d < 16 → AllHex (digit d ∷ [])
AllHex-digit d h = ((d, hex_value-digit d h), tt)

pub AllHex-digits : (fuel n : ℕ) → AllHex (digits 16 fuel n)
unfolding digits
AllHex-digits zero n = tt
AllHex-digits (suc fuel) n = elim (Bool-cases (ltb n 16)) [
  | inl small ↦ subst AllHex (sym (digits-small fuel n small)) (AllHex-digit n (ground arith))
  | inr big ↦ subst AllHex (sym (digits-big fuel n big)) (
      AllHex-append (digits 16 fuel (n / 16)) (digit (n % 16) ∷ []) (AllHex-digits fuel (n / 16))
        (AllHex-digit (n % 16) (omega arith)))
]

parse_digits-digit : (acc d : ℕ) → d < 16 → parse_digits acc (digit d ∷ []) ≡ acc * 16 + d
parse_digits-digit acc d h =
    parse_digits-step acc d (digit d) [] (hex_value-digit d h) ∙ parse_digits-nil (acc * 16 + d)

-- the digits of a number stand for it
pub parse_digits-digits : (fuel n : ℕ) → n < fuel → parse_digits 0 (digits 16 fuel n) ≡ n
parse_digits-digits zero n h = omega arith
parse_digits-digits (suc fuel) n h = elim (Bool-cases (ltb n 16)) [
  | inl small ↦
      ap (parse_digits 0) (digits-small fuel n small)
      ∙ parse_digits-digit 0 n (ground arith)
      ∙ omega arith
  | inr big ↦
      ap (parse_digits 0) (digits-big fuel n big)
      ∙ parse_digits-append 0 (digits 16 fuel (n / 16)) (digit (n % 16) ∷ [])
          (AllHex-digits fuel (n / 16))
      ∙ parse_digits-digit (parse_digits 0 (digits 16 fuel (n / 16))) (n % 16) (omega arith)
      ∙ ap (λ q. q * 16 + n % 16) (parse_digits-digits fuel (n / 16) (ground arith))
      ∙ omega arith
]

AllHex-take : (n : ℕ) (s : Text) → AllHex s → AllHex (take n s)
AllHex-take zero s h = tt
AllHex-take (suc n) [] h = tt
AllHex-take (suc n) (c ∷ s) h = (h.0, AllHex-take n s h.1)

-- without its first digits
pub parse_digits-drop :
    (k : ℕ) (s : Text)
    → AllHex s
    → parse_digits 0 (drop k s) ≡ parse_digits 0 s % 16 ^ length (drop k s)
parse_digits-drop k s h =
    let front = parse_digits 0 (take k s) in
    let power = 16 ^ length (drop k s) in
    sym (
      ap (λ t. parse_digits 0 t % power) (take-append-drop k s)
      ∙ ap (λ n. n % power)
          (parse_digits-append 0 (take k s) (drop k s) (AllHex-take k s h)
            ∙ parse_digits-shift front (drop k s) (AllHex-drop k s h))
      ∙ mul-add-mod_self_right front power (parse_digits 0 (drop k s))
      ∙ mod-eq_of_lt (parse_digits_lt (drop k s) (AllHex-drop k s h)))

pub parse_hex-AllHex : (s : Text) → AllHex s → 0 < length s → parse_hex s ≡ some (parse_digits 0 s)
unfolding parse_hex
parse_hex-AllHex [] h k = let impossible : ⊥ = omega arith in elim impossible [ ]
parse_hex-AllHex (c ∷ s) ((d, value), h) k =
    ap (λ o. elim o [ none ↦ none | some e ↦ some (parse_digits e s) ]) value
    ∙ ap some (sym (parse_digits-first d c s value))

-- a number of at least 16 ^ k has more than k digits
pub length-lt : (s : Text) (k : ℕ) → AllHex s → 16 ^ k ≤ parse_digits 0 s → k < length s
length-lt s k h bound = elim (Bool-cases (ltb k (length s))) [
  | inl more ↦ ground arith
  | inr few ↦ omega (
    arith,
    bound,
    parse_digits_lt s h,
    pow-le-pow_right {n = 16} (omega arith) {i = length s} {j = k} (ground arith),
  )
]
