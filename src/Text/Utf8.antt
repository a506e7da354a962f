-- ===== src/Text/Utf8.antt =====
-- `str::as_bytes` and `str::from_utf8` of the standard library: UTF-8 on code points.
use Prim.Native.Nat.{◌*◌, ◌/◌, ◌%◌}
use fanta.Prelude.{
  ℕ, ◌+◌, ◌-◌, ◌≡◌, refl, sym, ap, ◌∙◌, append_assoc, ltb, leb, if◌then◌else◌, Option, none, some,
  List, [], ◌∷◌, ◌++◌, ◌&&◌, ◌||◌, not, ◌>>=◌, Bool, true, All, arith,
}
use fanta.Text.{Str}

abbrev pub Bytes : Type 0
Bytes = List ℕ

-- A code point of at most four bytes.
unfoldable pub encode_char : ℕ → Bytes
encode_char c =
    if ltb c 0x80
    then c ∷ []
    else if ltb c 0x800
    then (0xc0 + c / 0x40) ∷ (0x80 + c % 0x40) ∷ []
    else if ltb c 0x10000
    then (0xe0 + c / 0x1000) ∷ (0x80 + c / 0x40 % 0x40) ∷ (0x80 + c % 0x40) ∷ []
    else (0xf0 + c / 0x40000)
      ∷ (0x80 + c / 0x1000 % 0x40)
      ∷ (0x80 + c / 0x40 % 0x40)
      ∷ (0x80 + c % 0x40)
      ∷ []

unfoldable pub as_bytes : Str → Bytes
as_bytes [] = []
as_bytes (c ∷ s) = encode_char c ++ as_bytes s

-- Between two code points, or inside one: how many bytes are missing, the bits that were read and
-- the least code point that needs so many bytes.
pub data Decoder : Type 0 where
  start : Decoder
  inside : ℕ → ℕ → ℕ → Decoder

-- A Unicode scalar value that is not too small for the length of its encoding.
abbrev pub is_scalar : ℕ → ℕ → Bool
is_scalar low c = leb low c && ltb c 0x110000 && (ltb c 0xd800 || leb 0xe000 c)

-- Reads one byte: the next state and the code point that it ends.
unfoldable pub feed : Decoder → ℕ → Option (Decoder × Option ℕ)
feed start b =
    if ltb b 0x80
    then some (start, some b)
    else if ltb b 0xc0
    then none
    else if ltb b 0xe0
    then some (inside 1 (b - 0xc0) 0x80, none)
    else if ltb b 0xf0
    then some (inside 2 (b - 0xe0) 0x800, none)
    else if ltb b 0xf8
    then some (inside 3 (b - 0xf0) 0x10000, none)
    else none
feed (inside missing acc low) b =
    let c = acc * 0x40 + (b - 0x80) in
    if not (leb 0x80 b && ltb b 0xc0)
    then none
    else if ltb 1 missing
    then some (inside (missing - 1) c low, none)
    else if is_scalar low c
    then some (start, some c)
    else none

abbrev pub at_end : Decoder → Option Str
at_end start = some []
at_end (inside _ _ _) = none

abbrev pub emit : Option ℕ → Option Str → Option Str
emit none rest = rest
emit (some c) rest = do some (c ∷ (← rest))

unfoldable pub decode_from : Decoder → Bytes → Option Str
decode_from d [] = at_end d
decode_from d (b ∷ bs) = elim (feed d b) [ none ↦ none | some (e, c) ↦ emit c (decode_from e bs) ]

-- `none` is the error of bytes that are no UTF-8.
unfoldable pub from_utf8 : Bytes → Option Str
from_utf8 = decode_from start

abbrev pub IsScalar : ℕ → Type 0
IsScalar c = is_scalar 0 c ≡ true

decode-encode_char :
    (c : ℕ) (bs : Bytes)
    → IsScalar c
    → decode_from start (encode_char c ++ bs) ≡ emit (some c) (decode_from start bs)
unfolding encode_char decode_from feed
decode-encode_char c bs h = ground arith

-- Reading the bytes of a text gives the text back.
pub from_utf8-as_bytes : (s : Str) → All IsScalar s → from_utf8 (as_bytes s) ≡ some s
unfolding from_utf8 as_bytes
from_utf8-as_bytes [] h = unfold decode_from in refl
from_utf8-as_bytes (c ∷ s) (h, hs) =
    decode-encode_char c (as_bytes s) h ∙ ap (emit (some c)) (from_utf8-as_bytes s hs)

-- The bytes of two texts are those of the two, one after the other.
pub as_bytes-append : (s t : Str) → as_bytes (s ++ t) ≡ as_bytes s ++ as_bytes t
unfolding as_bytes
as_bytes-append [] t = refl
as_bytes-append (c ∷ s) t =
    ap (λ r. encode_char c ++ r) (as_bytes-append s t)
    ∙ sym (append_assoc (encode_char c) (as_bytes s) (as_bytes t))
