-- ===== src/Time/Epoch.antt =====
-- Which identifiers src/time/epoch-to-utc-iso.ts takes for instants.
use mathlib.Core.Option.{some_inj}
use native.Mathlib.Nat.{pow-suc}
use replays_fetcher.Base.{
  ◌≡◌, refl, ◌↔◌, ◌≢◌, ◌∙◌, ap, ℕ, zero, suc, ◌+◌, ◌-◌, ◌*◌, ◌/◌, ◌^◌, ◌≤◌, ◌<◌, Bool, true, false,
  none, some, or_else, arith, [], ◌∷◌, ◌&&◌, Text, text_eq_iff, text_eq_refl, all_of, is_digits,
  is_digit, decimal, decimal_from, leb, leb→le, Bool-cases, inl, inr, ltb, if◌then◌else◌,
}
use replays_fetcher.Time.Calendar.{
  epoch_day, seconds_per_day, get_utc_full_year, get_utc_month, get_utc_date, get_utc_hours,
  get_utc_minutes, get_utc_seconds, day_from_year, date_utc,
}
use replays_fetcher.Time.Defs.{
  components_to_utc_iso, UtcDateComponents, digit, digits_before, string_of, epoch_to_utc_iso,
  to_iso_string, epoch_lower_bound_seconds, epoch_upper_bound_seconds,
}
use replays_fetcher.Time.Valid.{
  seconds_of, utc_of-seconds_of, components_to_utc_iso_iff, IsCalendarDate,
}
use replays_fetcher.Time.Fields.{range_lem, day_number}

digit-is_digit : (n : ℕ) → is_digit (digit n) ≡ true
digit-is_digit n = ground arith

and-true : {a b : Bool} → a ≡ true → b ≡ true → (a && b) ≡ true
and-true h k = rw (h, k) refl

digits_before-is_digit :
    (f n : ℕ) (t : Text) → all_of is_digit t ≡ true → all_of is_digit (digits_before f n t) ≡ true
digits_before-is_digit zero n t h = h
digits_before-is_digit (suc f) n t h = elim (Bool-cases (ltb n 10)) [
  | inl e ↦ rw e (and-true (digit-is_digit n) h)
  | inr e ↦ rw e (digits_before-is_digit f (n / 10) (digit n ∷ t) (and-true (digit-is_digit n) h))
]

decimal-digits_before :
    (f n : ℕ) (t : Text) → n < 10 ^ f → decimal (digits_before f n t) ≡ decimal_from n t
decimal-digits_before zero n t h = ap (λ k. decimal_from k t) (omega (arith, h))
decimal-digits_before (suc f) n t h = elim (Bool-cases (ltb n 10)) [
  | inl e ↦ rw e (ap (λ k. decimal_from k t) (ground arith))
  | inr e ↦
      rw (e, decimal-digits_before f (n / 10) (digit n ∷ t) (omega (arith, h, pow-suc 10 f)))
        (ap (λ k. decimal_from k t) (omega arith))
]

decimal-string_of : (n : ℕ) → n < 10 ^ 22 → decimal (string_of n) ≡ n
unfolding string_of
decimal-string_of n h = decimal-digits_before 22 n [] h

is_digits_iff : (t : Text) → (t ≢ []) → all_of is_digit t ≡ true → is_digits t ≡ true
is_digits_iff [] h k = absurd (h refl)
is_digits_iff (c ∷ t) h k = k

digits_before-cons : (f n c : ℕ) (t : Text) → digits_before f n (c ∷ t) ≢ []
digits_before-cons zero n c t = cc
digits_before-cons (suc f) n c t = elim (Bool-cases (ltb n 10)) [
  | inl e ↦ rw e cc
  | inr e ↦ rw e (digits_before-cons f (n / 10) (digit n) (c ∷ t))
]

digits_before-some : (f n : ℕ) → digits_before (suc f) n [] ≢ []
digits_before-some f n = elim (Bool-cases (ltb n 10)) [
  | inl e ↦ rw e cc
  | inr e ↦ rw e (digits_before-cons f (n / 10) (digit n) [])
]

is_digits-string_of : (n : ℕ) → is_digits (string_of n) ≡ true
unfolding string_of
is_digits-string_of n =
    is_digits_iff (string_of n) (digits_before-some 21 n) (digits_before-is_digit 22 n [] refl)

if_some_iff {ℓ} :
    {A : Type ℓ} (b : Bool) (x y : A) → (if b then some x else none) ≡ some y → (b ≡ true) × (x ≡ y)
if_some_iff true x y h = (refl, some_inj.0 h)
if_some_iff false x y h = cc

and_parts :
    (a b c d : Bool) → (a && b && c && d) ≡ true → (a ≡ true) × (b ≡ true) × (c ≡ true) × (d ≡ true)
and_parts a b c d h = ground arith

le→leb : (a b : ℕ) → a ≤ b → leb a b ≡ true
le→leb a b h = ground arith

-- An identifier is taken for an instant exactly when it is what a number of seconds from 2015-01-01
-- to 2035-01-01, both included, prints as; the text is then that of this instant.
pub epoch_to_utc_iso_iff :
    (external_id iso : Text)
    → (epoch_to_utc_iso external_id ≡ some iso) ↔ (
        (s : ℕ) × (epoch_lower_bound_seconds ≤ s)
        × (s ≤ epoch_upper_bound_seconds)
        × (string_of s ≡ external_id)
        × (to_iso_string s ≡ iso))
unfolding epoch_to_utc_iso
epoch_to_utc_iso_iff id iso = (
  λ h.
      let (t, x) = if_some_iff _ _ iso h in
      let (digits, same, low, high) = and_parts _ _ _ _ t in
      (decimal id, leb→le _ _ low, leb→le _ _ high, (text_eq_iff _ _).0 same, x),
  λ (s, low, high, same, text).
      rw
        (
          ← same,
          ← text,
          is_digits-string_of s,
          decimal-string_of s (omega (arith, high)),
          text_eq_refl (string_of s),
          le→leb _ _ low,
          le→leb _ _ high,
        )
        refl,
)

-- The components that are read from an instant.
abbrev pub components_at : ℕ → UtcDateComponents
components_at s = record {
  day = get_utc_date s;
  hour = get_utc_hours s;
  minute = get_utc_minutes s;
  month = get_utc_month s + 1;
  second = some (get_utc_seconds s);
  year = get_utc_full_year s;
}

-- They are those of the instant, and in the calendar.
components_at-seconds_of : (s : ℕ) → seconds_of (components_at s) ≡ s
unfolding get_utc_hours get_utc_minutes get_utc_seconds
components_at-seconds_of s =
    let same : get_utc_month s + 1 - 1 ≡ get_utc_month s = omega arith in
    let days = day_number s in rw same (omega (arith, days))

year_bounds :
    (y d : ℕ)
    → day_from_year y ≤ d
    → d < day_from_year (y + 1)
    → 735900 ≤ d
    → d ≤ 743300
    → (100 ≤ y) × (y ≤ 9999)
unfolding day_from_year
year_bounds y d h k low high = omega arith

-- The text of an instant of the window is what the other parsers render of a date and a time of the
-- calendar, which `Date.UTC` reads as that instant.
pub to_iso_string-components :
    (s : ℕ)
    → epoch_lower_bound_seconds ≤ s
    → s ≤ epoch_upper_bound_seconds
    → (c : UtcDateComponents) × IsCalendarDate c
      × (components_to_utc_iso c ≡ some (to_iso_string s))
      × (date_utc c.year c.month c.day c.hour c.minute (or_else c.second 0)
          ≡ some (epoch_day * seconds_per_day + s))
unfolding to_iso_string
to_iso_string-components s low high =
    let d = epoch_day * seconds_per_day + s in
    let (m, d1, d2, hh, mm, ss, first, next) = range_lem d in
    let (late, short) =
      year_bounds (get_utc_full_year d) (d / 86400) first next (omega (arith, low))
        (omega (arith, high)) in
    let v : IsCalendarDate (components_at d) = record {
      year_in = late;
      month_in = (omega arith, omega (arith, m));
      day_in = (d1, d2);
      hour_in = hh;
      minute_in = mm;
      second_in = ss;
    } in
    (
      components_at d,
      v,
      (components_to_utc_iso_iff _ short).0.1 v,
      utc_of-seconds_of _ short v ∙ ap some (components_at-seconds_of d),
    )
