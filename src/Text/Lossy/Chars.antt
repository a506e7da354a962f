-- ===== src/Text/Lossy/Chars.antt =====
-- The bytes of one character are read as the character.
use Prim.Native.Nat.{◌*◌, ◌/◌, ◌%◌}
use fanta.Prelude.{
  ℕ, suc, ◌+◌, ◌≤◌, ◌<◌, ◌≡◌, sym, ap, ◌∙◌, ltb, ◌==◌, if◌then◌else◌, ◌∷◌, Bool-cases, ◌++◌, arith,
  ◌⊎◌, inl, inr,
}
use fanta.Text.Utf8.{Bytes, IsScalar, encode_char}
use fanta.Text.Lossy.{between, amid, begin, go_on, lossy_from}

-- The bytes of a character that has some to come.
go_on-more :
    (missing acc low high r : ℕ) (bs : Bytes)
    → low ≤ 0x80 + r
    → 0x80 + r ≤ high
    → lossy_from (amid (suc (suc missing)) acc low high) ((0x80 + r) ∷ bs)
      ≡ lossy_from (amid (suc missing) (acc * 0x40 + r) 0x80 0xbf) bs
unfolding lossy_from go_on
go_on-more missing acc low high r bs h k = ground arith

go_on-last :
    (acc low high r : ℕ) (bs : Bytes)
    → low ≤ 0x80 + r
    → 0x80 + r ≤ high
    → lossy_from (amid 1 acc low high) ((0x80 + r) ∷ bs) ≡ (acc * 0x40 + r) ∷ lossy_from between bs
unfolding lossy_from go_on
go_on-last acc low high r bs h k = ground arith

begin-two :
    (q : ℕ) (bs : Bytes)
    → 2 ≤ q
    → q < 0x20
    → lossy_from between ((0xc0 + q) ∷ bs) ≡ lossy_from (amid 1 q 0x80 0xbf) bs
unfolding lossy_from go_on begin
begin-two q bs h k = ground arith

abbrev low_of : ℕ → ℕ → ℕ
low_of q other = if q == 0 then other else 0x80

abbrev high_of : ℕ → ℕ → ℕ → ℕ
high_of q odd other = if q == odd then other else 0xbf

begin-three :
    (q : ℕ) (bs : Bytes)
    → q < 0x10
    → lossy_from between ((0xe0 + q) ∷ bs)
      ≡ lossy_from (amid 2 q (low_of q 0xa0) (high_of q 13 0x9f)) bs
unfolding lossy_from go_on begin
begin-three q bs k = ground arith

begin-four :
    (q : ℕ) (bs : Bytes)
    → q < 5
    → lossy_from between ((0xf0 + q) ∷ bs)
      ≡ lossy_from (amid 3 q (low_of q 0x90) (high_of q 4 0x8f)) bs
unfolding lossy_from go_on begin
begin-four q bs k = ground arith

lossy-one :
    (c : ℕ) (bs : Bytes) → c < 0x80 → lossy_from between (c ∷ bs) ≡ c ∷ lossy_from between bs
unfolding lossy_from go_on begin
lossy-one c bs h = ground arith

lossy-two :
    (c q r : ℕ) (bs : Bytes)
    → c ≡ q * 0x40 + r
    → 0x80 ≤ c
    → c < 0x800
    → r < 0x40
    → lossy_from between ((0xc0 + q) ∷ (0x80 + r) ∷ bs) ≡ c ∷ lossy_from between bs
lossy-two c q r bs e l u h =
    begin-two q ((0x80 + r) ∷ bs) (omega arith) (omega arith)
    ∙ go_on-last q 0x80 0xbf r bs (omega arith) (omega arith)
    ∙ ap (λ k. k ∷ lossy_from between bs) (sym e)

lossy-three :
    (c q r t : ℕ) (bs : Bytes)
    → c ≡ q * 0x1000 + r * 0x40 + t
    → 0x800 ≤ c
    → c < 0x10000
    → (c < 0xd800) ⊎ (0xe000 ≤ c)
    → r < 0x40
    → t < 0x40
    → lossy_from between ((0xe0 + q) ∷ (0x80 + r) ∷ (0x80 + t) ∷ bs) ≡ c ∷ lossy_from between bs
lossy-three c q r t bs e l u s hr ht =
    let low : low_of q 0xa0 ≤ 0x80 + r = ground arith in
    let high : 0x80 + r ≤ high_of q 13 0x9f = ground arith in
    let value : (q * 0x40 + r) * 0x40 + t ≡ c = omega arith in
    begin-three q ((0x80 + r) ∷ (0x80 + t) ∷ bs) (omega arith)
    ∙ go_on-more 0 q (low_of q 0xa0) (high_of q 13 0x9f) r ((0x80 + t) ∷ bs) low high
    ∙ go_on-last (q * 0x40 + r) 0x80 0xbf t bs (omega arith) (omega arith)
    ∙ ap (λ k. k ∷ lossy_from between bs) value

lossy-four :
    (c q r t u : ℕ) (bs : Bytes)
    → c ≡ q * 0x40000 + r * 0x1000 + t * 0x40 + u
    → 0x10000 ≤ c
    → c < 0x110000
    → r < 0x40
    → t < 0x40
    → u < 0x40
    → lossy_from between ((0xf0 + q) ∷ (0x80 + r) ∷ (0x80 + t) ∷ (0x80 + u) ∷ bs)
      ≡ c ∷ lossy_from between bs
lossy-four c q r t u bs e l h hr ht hu =
    let low : low_of q 0x90 ≤ 0x80 + r = ground arith in
    let high : 0x80 + r ≤ high_of q 4 0x8f = ground arith in
    let value : ((q * 0x40 + r) * 0x40 + t) * 0x40 + u ≡ c = omega arith in
    begin-four q ((0x80 + r) ∷ (0x80 + t) ∷ (0x80 + u) ∷ bs) (omega arith)
    ∙ go_on-more 1 q (low_of q 0x90) (high_of q 4 0x8f) r ((0x80 + t) ∷ (0x80 + u) ∷ bs) low high
    ∙ go_on-more 0 (q * 0x40 + r) 0x80 0xbf t ((0x80 + u) ∷ bs) (omega arith) (omega arith)
    ∙ go_on-last ((q * 0x40 + r) * 0x40 + t) 0x80 0xbf u bs (omega arith) (omega arith)
    ∙ ap (λ k. k ∷ lossy_from between bs) value

pub lossy-encode_char :
    (c : ℕ) (bs : Bytes)
    → IsScalar c
    → lossy_from between (encode_char c ++ bs) ≡ c ∷ lossy_from between bs
unfolding encode_char
lossy-encode_char c bs h = elim (Bool-cases (ltb c 0x80)) [
  | inl a ↦ rw a (lossy-one c bs (ground arith))
  | inr a ↦ elim (Bool-cases (ltb c 0x800)) [
    | inl b ↦
        rw (a, b)
          (lossy-two c (c / 0x40) (c % 0x40) bs (omega arith) (ground arith) (ground arith)
            (omega arith))
    | inr b ↦ elim (Bool-cases (ltb c 0x10000)) [
      | inl d ↦
          let surrogates : (c < 0xd800) ⊎ (0xe000 ≤ c) = ground arith in
          rw (a, b, d)
            (lossy-three c (c / 0x1000) (c / 0x40 % 0x40) (c % 0x40) bs (omega arith) (ground arith)
              (ground arith) surrogates (omega arith) (omega arith))
      | inr d ↦
          rw (a, b, d)
            (lossy-four c (c / 0x40000) (c / 0x1000 % 0x40) (c / 0x40 % 0x40) (c % 0x40) bs
              (omega arith) (ground arith) (ground arith) (omega arith) (omega arith) (omega arith))
    ]
  ]
]
