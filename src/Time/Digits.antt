-- ===== src/Time/Digits.antt =====
-- The padded numbers of src/time/components-to-utc-iso.ts, and the groups `\d{2}` and `\d{4}` of the
-- patterns of src/staging/payload.ts and src/discovery/html.ts.
use replays_fetcher.Base.{
  ◌≡◌, refl, ap, ℕ, suc, ◌/◌, ◌≤◌, ◌<◌, true, Option, some, arith, [], ◌∷◌, ◌++◌, Text, is_digit,
  Bool-cases, inl, inr, ltb,
}
use replays_fetcher.Time.Defs.{
  digit, digits_before, string_of, pad_two, pad_four, read_two, read_four,
}

digits_before-one : (f n : ℕ) (t : Text) → n < 10 → digits_before (suc f) n t ≡ digit n ∷ t
digits_before-one f n t h = ground arith

digits_before-more :
    (f n : ℕ) (t : Text)
    → 10 ≤ n
    → digits_before (suc f) n t ≡ digits_before f (n / 10) (digit n ∷ t)
digits_before-more f n t h = ground arith

pub pad_two_lem : (n : ℕ) → n ≤ 99 → pad_two n ≡ digit (n / 10) ∷ digit n ∷ []
unfolding pad_two string_of
pad_two_lem n h = elim (Bool-cases (ltb n 10)) [
  | inl e ↦
      rw (digits_before-one 21 n [] (ground arith))
        (let z : digit (n / 10) ≡ b'0' = ground arith in rw z refl)
  | inr e ↦
      rw
        (
          digits_before-more 21 n [] (ground arith),
          digits_before-one 20 (n / 10) (digit n ∷ []) (omega arith),
        )
        refl
]

pub pad_four_lem :
    (n : ℕ)
    → n ≤ 9999
    → pad_four n ≡ digit (n / 1000) ∷ digit (n / 100) ∷ digit (n / 10) ∷ digit n ∷ []
unfolding pad_four string_of
pad_four_lem n h = elim (Bool-cases (ltb n 10)) [
  | inl e ↦
      let z3 : digit (n / 1000) ≡ b'0' = ground arith in
      let z2 : digit (n / 100) ≡ b'0' = ground arith in
      let z1 : digit (n / 10) ≡ b'0' = ground arith in
      rw (digits_before-one 21 n [] (ground arith), z1, z2, z3) refl
  | inr e1 ↦ elim (Bool-cases (ltb n 100)) [
    | inl e ↦
        let z3 : digit (n / 1000) ≡ b'0' = ground arith in
        let z2 : digit (n / 100) ≡ b'0' = ground arith in
        rw
          (
            digits_before-more 21 n [] (ground arith),
            digits_before-one 20 (n / 10) (digit n ∷ []) (ground arith),
            z2,
            z3,
          )
          refl
    | inr e2 ↦ elim (Bool-cases (ltb n 1000)) [
      | inl e ↦
          let z3 : digit (n / 1000) ≡ b'0' = ground arith in
          let h2 : n / 10 / 10 ≡ n / 100 = omega arith in
          rw
            (
              digits_before-more 21 n [] (ground arith),
              digits_before-more 20 (n / 10) (digit n ∷ []) (ground arith),
              digits_before-one 19 (n / 10 / 10) (digit (n / 10) ∷ digit n ∷ []) (ground arith),
              h2,
              z3,
            )
            refl
      | inr e3 ↦
          let h2 : n / 10 / 10 ≡ n / 100 = omega arith in
          let h3 : n / 100 / 10 ≡ n / 1000 = omega arith in
          rw
            (
              digits_before-more 21 n [] (ground arith),
              digits_before-more 20 (n / 10) (digit n ∷ []) (ground arith),
              h2,
              digits_before-more 19 (n / 100) (digit (n / 10) ∷ digit n ∷ []) (ground arith),
              h3,
              digits_before-one 18 (n / 1000) (digit (n / 100) ∷ digit (n / 10) ∷ digit n ∷ [])
                  (ground arith),
            )
            refl
    ]
  ]
]

pub digit-is_digit : (n : ℕ) → is_digit (digit n) ≡ true
digit-is_digit n = ground arith

abbrev pub found : Text → ℕ → Option (ℕ × Text)
found t n = some (n, t)

pub read_two-pad_two : (n : ℕ) (t : Text) → n ≤ 99 → read_two (pad_two n ++ t) ≡ some (n, t)
read_two-pad_two n t h =
    rw (pad_two_lem n h, digit-is_digit (n / 10), digit-is_digit n)
      (ap (found t) (omega (arith, h)))

pub read_four-pad_four : (n : ℕ) (t : Text) → n ≤ 9999 → read_four (pad_four n ++ t) ≡ some (n, t)
read_four-pad_four n t h =
    rw
      (
        pad_four_lem n h,
        digit-is_digit (n / 1000),
        digit-is_digit (n / 100),
        digit-is_digit (n / 10),
        digit-is_digit n,
      )
      (ap (found t) (omega (arith, h)))
