-- ===== src/Text/Trim.antt =====
-- `str::trim` of the standard library, on code points.
use fanta.Prelude.{ℕ, Bool, ◌&&◌, ◌||◌, ◌==◌, leb, if◌then◌else◌, [], ◌∷◌, ◌≡◌, refl}
use fanta.Text.{Str}

-- `char::is_whitespace`: the code points with the Unicode property `White_Space`.
abbrev pub is_whitespace : ℕ → Bool
is_whitespace c =
    (leb 0x9 c && leb c 0xd)
    || (c == 0x20)
    || (c == 0x85)
    || (c == 0xa0)
    || (c == 0x1680)
    || (leb 0x2000 c && leb c 0x200a)
    || (c == 0x2028)
    || (c == 0x2029)
    || (c == 0x202f)
    || (c == 0x205f)
    || (c == 0x3000)

unfoldable pub trim_start : Str → Str
trim_start [] = []
trim_start (c ∷ s) = let rest = trim_start s in if is_whitespace c then rest else c ∷ s

-- Keeps a character when something stays after it.
abbrev pub before : ℕ → Str → Str
before c [] = if is_whitespace c then [] else c ∷ []
before c (d ∷ s) = c ∷ d ∷ s

unfoldable pub trim_end : Str → Str
trim_end [] = []
trim_end (c ∷ s) = before c (trim_end s)

unfoldable pub trim : Str → Str
trim s = trim_end (trim_start s)

-- Nothing to trim.
abbrev pub IsTight : Str → Type 0
IsTight s = trim s ≡ s

pub trim-space : (s : Str) → trim (b' ' ∷ s) ≡ trim s
unfolding trim trim_start
trim-space s = refl
