-- ===== src/Paychangu/Phone.antt =====
-- `normalizePhone` (backend/src/paychangu/paychangu.service.ts).
use mathlib.Core.Option.{some-injective}
use haroti_lpg_management.Prelude.{
  length, ◌==◌, if◌then◌else◌, Bool-cases, ℕ, ◌≡◌, refl, sym, ap, ◌∙◌, inl, inr, false, ◌&&◌,
  Option, none, some, List, [], ◌∷◌, map, arith,
}

-- A character of a phone number: a digit, or one that is thrown away.
pub data PhoneChar : Type 0 where
  digit : ℕ → PhoneChar
  other_char : PhoneChar

-- `phone.replace(/\D/g, '')`
unfoldable pub digits_of : List PhoneChar → List ℕ
digits_of [] = []
digits_of (PhoneChar.digit d ∷ cs) = d ∷ digits_of cs
digits_of (PhoneChar.other_char ∷ cs) = digits_of cs

-- `if (digits.startsWith('265')) digits = digits.slice(3)`
unfoldable pub without_country : List ℕ → List ℕ
without_country (a ∷ b ∷ c ∷ ds) = if a == 2 && (b == 6 && c == 5) then ds else a ∷ b ∷ c ∷ ds
without_country ds = ds

-- `if (digits.startsWith('0')) digits = digits.slice(1)`
unfoldable pub without_zero : List ℕ → List ℕ
without_zero [] = []
without_zero (d ∷ ds) = if d == 0 then ds else d ∷ ds

-- `normalizePhone`, none where it throws
unfoldable pub normalize_phone : List PhoneChar → Option (List ℕ)
normalize_phone phone =
    let digits = without_zero (without_country (digits_of phone)) in
    if length digits == 9 then some (0 ∷ digits) else none

digits_of-map : (ds : List ℕ) → digits_of (map PhoneChar.digit ds) ≡ ds
unfolding digits_of
digits_of-map [] = refl
digits_of-map (d ∷ ds) = ap (λ r. d ∷ r) (digits_of-map ds)

-- A number that starts with 0 loses just that.
local_lem : (ds : List ℕ) → without_zero (without_country (0 ∷ ds)) ≡ ds
unfolding without_zero without_country
local_lem [] = refl
local_lem (a ∷ []) = refl
local_lem (a ∷ b ∷ ds) = refl

-- A number in the normal form has ten digits, the first of them 0.
pub normalize_phone-length :
    (phone : List PhoneChar) {ds : List ℕ}
    → normalize_phone phone ≡ some ds
    → (length ds ≡ 10) × ((rest : List ℕ) × (ds ≡ 0 ∷ rest))
unfolding normalize_phone
normalize_phone-length phone {ds} h =
    let digits = without_zero (without_country (digits_of phone)) in
    elim (Bool-cases (length digits == 9)) [
      | inr wrong ↦ cc (rw wrong at h)
      | inl nine ↦
          let same : 0 ∷ digits ≡ ds = some-injective _ _ (rw nine at h) in
          (rw (sym same) (ground (arith, nine)), (digits, sym same))
    ]

normalize_of :
    (phone : List PhoneChar) (digits : List ℕ)
    → without_zero (without_country (digits_of phone)) ≡ digits
    → length digits ≡ 9
    → normalize_phone phone ≡ some (0 ∷ digits)
unfolding normalize_phone
normalize_of phone digits e nine = rw e (rw nine refl)

normalize_local :
    (ds : List ℕ) → length ds ≡ 9 → normalize_phone (map PhoneChar.digit (0 ∷ ds)) ≡ some (0 ∷ ds)
normalize_local ds nine =
    normalize_of (map PhoneChar.digit (0 ∷ ds)) ds
      (ap (λ x. without_zero (without_country x)) (digits_of-map (0 ∷ ds)) ∙ local_lem ds) nine

-- The normal form of a number is its own normal form.
pub normalize_phone_idem :
    (phone : List PhoneChar) {ds : List ℕ}
    → normalize_phone phone ≡ some ds
    → normalize_phone (map PhoneChar.digit ds) ≡ some ds
unfolding normalize_phone
normalize_phone_idem phone {ds} h =
    let (ten, tail) = normalize_phone-length phone h in
    let (rest, same) = tail in
    let nine : length rest ≡ 9 = omega (arith, ten, ap length same) in
    rw same (normalize_local rest nine)

-- A number of nine digits in the local form, with its 0, and in the international form, with 265,
-- has the same normal form.
pub normalize_phone-international :
    (d : ℕ) (ds : List ℕ)
    → length (d ∷ ds) ≡ 9
    → (d == 0) ≡ false
    → (normalize_phone (map PhoneChar.digit (0 ∷ d ∷ ds)) ≡ some (0 ∷ d ∷ ds))
      × (normalize_phone (map PhoneChar.digit (2 ∷ 6 ∷ 5 ∷ d ∷ ds)) ≡ some (0 ∷ d ∷ ds))
unfolding without_country without_zero
normalize_phone-international d ds nine nonzero =
    let phone = map PhoneChar.digit (2 ∷ 6 ∷ 5 ∷ d ∷ ds) in
    let stripped : without_zero (without_country (2 ∷ 6 ∷ 5 ∷ d ∷ ds)) ≡ d ∷ ds = rw nonzero refl in
    (
      normalize_local (d ∷ ds) nine,
      normalize_of phone (d ∷ ds)
          (ap (λ x. without_zero (without_country x)) (digits_of-map (2 ∷ 6 ∷ 5 ∷ d ∷ ds))
            ∙ stripped)
          nine,
    )
