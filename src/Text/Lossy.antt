-- ===== src/Text/Lossy.antt =====
-- `String::from_utf8_lossy` of the standard library: what is no UTF-8 becomes the replacement
-- character, once for each longest start of a character.
pub mod Chars
pub mod Reads
use Prim.Native.Nat.{◌*◌, ◌/◌, ◌%◌}
use fanta.Prelude.{
  ℕ, suc, ◌+◌, ◌≤◌, ◌<◌, ◌-◌, ◌≡◌, refl, sym, ap, ◌∙◌, ltb, leb, ◌==◌, ◌&&◌, if◌then◌else◌, [], ◌∷◌,
  append_assoc, append-nil, Bool-cases, ◌++◌, All, arith, ◌⊎◌, inl, inr,
}
use fanta.Text.{Str}
use fanta.Text.Utf8.{Bytes, IsScalar, encode_char, as_bytes}

abbrev pub replacement : ℕ
replacement = 0xfffd

-- Between two characters, or inside one: how many bytes are missing, the bits that were read, and
-- the least and the greatest byte that may come next.
pub data Progress : Type 0 where
  between : Progress
  amid : ℕ → ℕ → ℕ → ℕ → Progress

-- What a byte does between two characters: the next state, and the character that it ends.
unfoldable pub begin : ℕ → Progress × Str
begin b =
    if ltb b 0x80
    then (between, b ∷ [])
    else if ltb b 0xc2
    then (between, replacement ∷ [])
    else if ltb b 0xe0
    then (amid 1 (b - 0xc0) 0x80 0xbf, [])
    else if ltb b 0xf0
    then (
      amid 2 (b - 0xe0) (if b == 0xe0 then 0xa0 else 0x80) (if b == 0xed then 0x9f else 0xbf),
      [],
    )
    else if ltb b 0xf5
    then (
      amid 3 (b - 0xf0) (if b == 0xf0 then 0x90 else 0x80) (if b == 0xf4 then 0x8f else 0xbf),
      [],
    )
    else (between, replacement ∷ [])

-- A byte that cannot come next ends the character that was begun, and begins another.
unfoldable pub go_on : Progress → ℕ → Progress × Str
unfolding begin
go_on between b = begin b
go_on (amid missing acc low high) b =
    let c = acc * 0x40 + (b - 0x80) in
    let other = begin b in
    if leb low b && leb b high
    then (if ltb 1 missing then (amid (missing - 1) c 0x80 0xbf, []) else (between, c ∷ []))
    else (other.0, replacement ∷ other.1)

unfoldable pub lossy_from : Progress → Bytes → Str
lossy_from between [] = []
lossy_from (amid _ _ _ _) [] = replacement ∷ []
lossy_from s (b ∷ bs) = (go_on s b).1 ++ lossy_from ((go_on s b).0) bs

unfoldable pub from_utf8_lossy : Bytes → Str
from_utf8_lossy = lossy_from between
