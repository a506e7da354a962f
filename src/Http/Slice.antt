-- ===== src/Http/Slice.antt =====
-- A part of a buffer, `&data[start..end]`.
use fanta.Prelude.{
  ℕ, zero, suc, ◌+◌, ◌-◌, ◌≤◌, ◌≡◌, refl, ap, ◌∙◌, leb, ◌&&◌, if◌then◌else◌, Option, none, some, [],
  ◌∷◌, ◌++◌, length, length-append, arith,
}
use fanta.Text.Utf8.{Bytes}

-- `type Slice = (usize, usize)`
abbrev pub Slice : Type 0
Slice = ℕ × ℕ

unfoldable pub take : ℕ → Bytes → Bytes
take zero s = []
take (suc n) [] = []
take (suc n) (b ∷ s) = b ∷ take n s

unfoldable pub drop : ℕ → Bytes → Bytes
drop zero s = s
drop (suc n) [] = []
drop (suc n) (b ∷ s) = drop n s

-- `none` is the panic of an index out of range.
unfoldable pub index : Bytes → Slice → Option Bytes
index buffer (start, end) =
    if leb start end && leb end (length buffer)
    then some (take (end - start) (drop start buffer))
    else none

pub take-append : (s t : Bytes) → take (length s) (s ++ t) ≡ s
unfolding take
take-append [] t = refl
take-append (b ∷ s) t = ap (λ r. b ∷ r) (take-append s t)

pub length-take : (n : ℕ) (s : Bytes) → n ≤ length s → length (take n s) ≡ n
unfolding take
length-take zero s h = refl
length-take (suc n) [] h = omega (arith, h)
length-take (suc n) (b ∷ s) h = ap suc (length-take n s (omega (arith, h)))

pub length-drop : (n : ℕ) (s : Bytes) → n ≤ length s → length (drop n s) ≡ length s - n
unfolding drop
length-drop zero s h = omega arith
length-drop (suc n) [] h = omega (arith, h)
length-drop (suc n) (b ∷ s) h = length-drop n s (omega (arith, h)) ∙ omega arith

pub drop-append : (s t : Bytes) → drop (length s) (s ++ t) ≡ t
unfolding drop
drop-append [] t = refl
drop-append (b ∷ s) t = drop-append s t

pub take-all : (t : Bytes) → take (length t) t ≡ t
unfolding take
take-all [] = refl
take-all (b ∷ t) = ap (λ r. b ∷ r) (take-all t)

-- The part after a prefix, up to the end.
pub index-rest :
    (s t : Bytes) (end : ℕ) → end ≡ length s + length t → index (s ++ t) (length s, end) ≡ some t
unfolding index
index-rest s t end e = ground (arith, e, length-append s t, drop-append s t, take-all t)

pub drop-all : (t : Bytes) → drop (length t) t ≡ []
unfolding drop
drop-all [] = refl
drop-all (b ∷ t) = drop-all t
