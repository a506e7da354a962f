-- ===== src/Text/Lossy/Reads.antt =====
-- What `String::from_utf8_lossy` makes of the bytes of texts, and of a character that is cut.
use fanta.Prelude.{
  ℕ, ◌+◌, ◌≤◌, ◌<◌, ◌≡◌, refl, sym, ap, ◌∙◌, [], ◌∷◌, append_assoc, append-nil, ◌++◌, All, arith,
}
use fanta.Text.{Str}
use fanta.Text.Utf8.{Bytes, IsScalar, encode_char, as_bytes}
use fanta.Text.Lossy.{replacement, between, begin, go_on, lossy_from, from_utf8_lossy}
use fanta.Text.Lossy.Chars.{lossy-encode_char}

-- The bytes of a text are read as the text, whatever comes behind them.
pub lossy-as_bytes :
    (s : Str) (bs : Bytes)
    → All IsScalar s
    → lossy_from between (as_bytes s ++ bs) ≡ s ++ lossy_from between bs
unfolding as_bytes
lossy-as_bytes [] bs h = refl
lossy-as_bytes (c ∷ s) bs (h, hs) =
    ap (lossy_from between) (append_assoc (encode_char c) (as_bytes s) bs)
    ∙ lossy-encode_char c (as_bytes s ++ bs) h
    ∙ ap (λ k. c ∷ k) (lossy-as_bytes s bs hs)

pub from_utf8_lossy-as_bytes : (s : Str) → All IsScalar s → from_utf8_lossy (as_bytes s) ≡ s
unfolding from_utf8_lossy
from_utf8_lossy-as_bytes s h =
    ap (lossy_from between) (sym (append-nil (as_bytes s)))
    ∙ lossy-as_bytes s [] h
    ∙ unfold lossy_from in append-nil s

stray-byte :
    (r : ℕ) (bs : Bytes)
    → r < 0x40
    → lossy_from between ((0x80 + r) ∷ bs) ≡ replacement ∷ lossy_from between bs
unfolding lossy_from go_on begin
stray-byte r bs h = ground arith

-- The first of two bytes of a character alone at the end, and the second alone at the start.
pub lossy-cut :
    (s t : Str) (q r : ℕ)
    → All IsScalar s
    → All IsScalar t
    → 2 ≤ q
    → q < 0x20
    → r < 0x40
    → (from_utf8_lossy (as_bytes s ++ (0xc0 + q) ∷ []) ≡ s ++ replacement ∷ [])
      × (from_utf8_lossy ((0x80 + r) ∷ as_bytes t) ≡ replacement ∷ t)
unfolding from_utf8_lossy lossy_from go_on begin
lossy-cut s t q r hs ht l h k = (
  lossy-as_bytes s ((0xc0 + q) ∷ []) hs ∙ ap (λ k. s ++ k) (ground arith),
  stray-byte r (as_bytes t) k ∙ ap (λ k. replacement ∷ k) (from_utf8_lossy-as_bytes t ht),
)
