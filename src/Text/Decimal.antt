-- ===== src/Text/Decimal.antt =====
-- `format!("{}", n)` of an unsigned integer of at most 64 bits.
use Prim.Native.Nat.{◌*◌, ◌/◌, ◌%◌}
use fanta.Prelude.{ℕ, zero, suc, ◌+◌, ◌-◌, ◌<◌, ◌≡◌, refl, ltb, if◌then◌else◌, [], ◌∷◌, ◌++◌, arith}
use fanta.Text.{Str}

-- At most `fuel` digits.
unfoldable pub digits : ℕ → ℕ → Str
digits zero n = []
digits (suc fuel) n =
    let rest = digits fuel (n / 10) in
    if ltb n 10 then (48 + n) ∷ [] else rest ++ (48 + n % 10) ∷ []

-- A `u64` has at most twenty digits.
unfoldable pub decimal : ℕ → Str
unfolding digits
decimal n = digits 20 n

-- The number that a row of digits stands for, after what was read before it.
abbrev pub value_from : ℕ → Str → ℕ
value_from acc [] = acc
value_from acc (c ∷ s) = value_from (10 * acc + (c - 48)) s

-- `10 ^ fuel`
abbrev pub limit : ℕ → ℕ
limit zero = 1
limit (suc k) = 10 * limit k

value_from-snoc :
    (acc : ℕ) (s : Str) (c : ℕ) → value_from acc (s ++ c ∷ []) ≡ 10 * value_from acc s + (c - 48)
value_from-snoc acc [] c = refl
value_from-snoc acc (d ∷ s) c = value_from-snoc (10 * acc + (d - 48)) s c

value-digits : (fuel n : ℕ) → n < limit fuel → value_from 0 (digits fuel n) ≡ n
unfolding digits
value-digits zero n h = omega (arith, h)
value-digits (suc fuel) n h =
    ground
      (arith, h, value-digits fuel (n / 10), value_from-snoc 0 (digits fuel (n / 10)) (48 + n % 10))

-- Twenty digits are enough: reading the digits of a number below `10 ^ 20` gives it back.
pub value-decimal : (n : ℕ) → n < limit 20 → value_from 0 (decimal n) ≡ n
unfolding decimal
value-decimal n h = value-digits 20 n h
