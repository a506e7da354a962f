-- ===== src/Http/Numbers.antt =====
-- A length that `encode` prints is read back by `parse::<usize>()`.
use Prim.Native.Nat.{◌*◌, ◌/◌, ◌%◌, ◌^◌}
use fanta.Prelude.{
  ℕ, zero, suc, ◌+◌, ◌-◌, ◌≤◌, ◌<◌, ◌≡◌, refl, ap, sym, ◌∙◌, leb, ltb, ◌&&◌, if◌then◌else◌,
  Bool-cases, inl, inr, Option, none, some, [], ◌∷◌, ◌++◌, ◌>>=◌, All, All-append, arith,
}
use fanta.Text.{Str}
use fanta.Text.Decimal.{digits, decimal, limit}
use fanta.Text.Utf8.{as_bytes, encode_char}
use fanta.Http.Request.{parse_digits, parse_usize}

abbrev pub IsDigit : ℕ → Type 0
IsDigit c = (48 ≤ c) × (c < 58)

pub digits-IsDigit : (fuel n : ℕ) → All IsDigit (digits fuel n)
unfolding digits
digits-IsDigit zero n = tt
digits-IsDigit (suc fuel) n = elim (Bool-cases (ltb n 10)) [
  | inl e ↦ rw e ((omega arith, ground arith), tt)
  | inr e ↦ rw e (
      All-append IsDigit (digits fuel (n / 10)) ((48 + n % 10) ∷ []) (digits-IsDigit fuel (n / 10))
        ((omega arith, omega arith), tt))
]

-- Digits are one byte each.
pub as_bytes-digits : (s : Str) → All IsDigit s → as_bytes s ≡ s
unfolding as_bytes encode_char
as_bytes-digits [] h = refl
as_bytes-digits (c ∷ s) (d, h) = ground (arith, as_bytes-digits s h)

-- One more digit.
abbrev step : ℕ → ℕ → Option ℕ
step c k =
    if leb 48 c && leb c 57 && ltb (10 * k + (c - 48)) (2 ^ 64)
    then some (10 * k + (c - 48))
    else none

parse_digits-snoc :
    (acc : ℕ) (s : Str) (c : ℕ) → parse_digits acc (s ++ c ∷ []) ≡ (parse_digits acc s >>= step c)
unfolding parse_digits
parse_digits-snoc acc [] c = refl
parse_digits-snoc acc (d ∷ s) c = ground (arith, parse_digits-snoc (10 * acc + (d - 48)) s c)

one-digit : (n : ℕ) → n < 10 → n < 2 ^ 64 → parse_digits 0 ((48 + n) ∷ []) ≡ some n
unfolding parse_digits
one-digit n h k = ground arith

last-digit : (n : ℕ) → n < 2 ^ 64 → step (48 + n % 10) (n / 10) ≡ some n
last-digit n k =
    let whole : 10 * (n / 10) + (48 + n % 10 - 48) ≡ n = omega arith in rw whole (ground arith)

parse_digits-digits :
    (fuel n : ℕ) → n < limit fuel → n < 2 ^ 64 → parse_digits 0 (digits fuel n) ≡ some n
unfolding digits
parse_digits-digits zero n h k = unfold parse_digits in ap (λ m. some m) (omega (arith, h))
parse_digits-digits (suc fuel) n h k = elim (Bool-cases (ltb n 10)) [
  | inl e ↦ rw e (one-digit n (ground (arith, e)) k)
  | inr e ↦ rw e (
      parse_digits-snoc 0 (digits fuel (n / 10)) (48 + n % 10)
      ∙ ap (λ o. o >>= step (48 + n % 10))
          (parse_digits-digits fuel (n / 10) (omega (arith, h)) (omega arith))
      ∙ last-digit n k)
]

-- The digits of a number begin with a digit.
digits-first :
    (fuel n : ℕ)
    → n < limit (suc fuel)
    → (c : ℕ) × (s : Str) × (digits (suc fuel) n ≡ c ∷ s) × IsDigit c
unfolding digits
digits-first zero n h = (48 + n, [], ground (arith, h), (omega arith, omega (arith, h)))
digits-first (suc fuel) n h = elim (Bool-cases (ltb n 10)) [
  | inl e ↦ (48 + n, [], rw e refl, (omega arith, ground (arith, e)))
  | inr e ↦
      let (c, s, d, k) = digits-first fuel (n / 10) (omega (arith, h)) in
      (c, s ++ (48 + n % 10) ∷ [], rw e (ap (λ l. l ++ (48 + n % 10) ∷ []) d), k)
]

parse_usize-digit : (c : ℕ) (s : Str) → IsDigit c → parse_usize (c ∷ s) ≡ parse_digits 0 (c ∷ s)
unfolding parse_usize
parse_usize-digit c [] h = ground arith
parse_usize-digit c (d ∷ s) h = ground arith

-- A number of 64 bits that is printed is read back.
pub parse_usize-decimal : (n : ℕ) → n < 2 ^ 64 → parse_usize (decimal n) ≡ some n
unfolding decimal
parse_usize-decimal n h =
    let below : n < limit 20 = omega (arith, h) in
    let (c, s, e, d) = digits-first 19 n below in
    ap parse_usize e
    ∙ parse_usize-digit c s d
    ∙ ap (parse_digits 0) (sym e)
    ∙ parse_digits-digits 20 n below h
