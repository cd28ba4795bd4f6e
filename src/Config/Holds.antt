-- ===== src/Config/Holds.antt =====
-- Predicates on what a field of the configuration gives, if it gives anything.
use replays_fetcher.Base.{
  ◌≡◌, refl, ℕ, Option, none, some, Bool, true, false, Text, arith, length, leb, ◌≤◌, ◌>>=◌, ◌&&◌,
  if◌then◌else◌,
}
use replays_fetcher.Types.{Whole, non_negative, negative}
use replays_fetcher.Config.Defs.{
  ConfigValue, flag, string, in_range, at_least, with_default, optional, required, bounded_string,
}

abbrev pub Between : ℕ → ℕ → ℕ → Type 0
Between low high n = (low ≤ n) × (n ≤ high)

abbrev pub Bounded : ℕ → Text → Type 0
Bounded high t = Between 1 high (length t)

-- What is there, if anything is, satisfies the predicate.
abbrev pub Holds {ℓ κ} : {A : Type ℓ} → (A → Type κ) → Option A → Type κ
Holds P none = Unit
Holds P (some a) = P a

pub Holds-bind :
    {A B : Type 0} (P : A → Type 0) (Q : B → Type 0) (x : Option A) (f : A → Option B)
    → Holds P x
    → ((a : A) → P a → Holds Q (f a))
    → Holds Q (x >>= f)
Holds-bind P Q none f h k = tt
Holds-bind P Q (some a) f h k = k a h

pub Holds-with_default :
    {A : Type 0} (P : A → Type 0) (a : A) (f : ConfigValue → Option A)
    → P a
    → ((v : ConfigValue) → Holds P (f v))
    → (x : Option ConfigValue) → Holds P (with_default a f x)
Holds-with_default P a f h k none = h
Holds-with_default P a f h k (some v) = k v

pub Holds-optional :
    {A : Type 0} (P : A → Type 0) (f : ConfigValue → Option A)
    → ((v : ConfigValue) → Holds P (f v))
    → (x : Option ConfigValue) → Holds (Holds P) (optional f x)
Holds-optional P f k none = tt
Holds-optional P f k (some v) = Holds-bind P (Holds P) (f v) (λ a. some (some a)) (k v) (λ a h. h)

pub Holds-required :
    {A : Type 0} (P : A → Type 0) (f : ConfigValue → Option A)
    → ((v : ConfigValue) → Holds P (f v))
    → (x : Option ConfigValue) → Holds P (required f x)
Holds-required P f k none = tt
Holds-required P f k (some v) = k v

pub Holds-any : {A : Type 0} (x : Option A) → Holds {0, 0} (λ _. Unit) x
Holds-any none = tt
Holds-any (some a) = tt

-- A value that is let through by a test that implies the predicate.
pub Holds-if :
    {A : Type 0} (P : A → Type 0) (b : Bool) (a : A)
    → (b ≡ true → P a)
    → Holds P (if b then some a else none)
Holds-if P true a h = h refl
Holds-if P false a h = tt

pub between_lem : (low high n : ℕ) → leb low n && leb n high ≡ true → Between low high n
between_lem low high n h = (ground (arith, h), ground (arith, h))

pub in_range-Between : (low high : ℕ) (n : Whole) → Holds (Between low high) (in_range low high n)
in_range-Between low high (non_negative n) =
    Holds-if (Between low high) (leb low n && leb n high) n (between_lem low high n)
in_range-Between low high (negative n) = tt

pub at_least-Holds : (low : ℕ) (n : Whole) → Holds (λ k. low ≤ k) (at_least low n)
at_least-Holds low (non_negative n) = Holds-if (λ k. low ≤ k) (leb low n) n (λ h. ground (arith, h))
at_least-Holds low (negative n) = tt

pub bounded_string-Bounded :
    (high : ℕ) (v : ConfigValue) → Holds (Bounded high) (bounded_string high v)
bounded_string-Bounded high (string t) =
    Holds-if (Bounded high) (leb 1 (length t) && leb (length t) high) t
      (between_lem 1 high (length t))
bounded_string-Bounded high (flag _) = tt
