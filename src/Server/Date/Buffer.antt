-- ===== src/Server/Date/Buffer.antt =====
-- The 128 bytes that `LastRenderedNow` of thruster/src/core/date.rs renders the date into. What the
-- crate `time` writes, piece by piece, is a parameter; `none` is a panic.
use fanta.Prelude.{
  ℕ, zero, suc, true, false, ◌+◌, ◌≤◌, ◌<◌, ◌≡◌, refl, ap, sym, ◌∙◌, inl, inr, leb, if◌then◌else◌,
  Bool-cases, Option, none, some, ◌>>=◌, List, [], ◌∷◌, ◌++◌, append_assoc, append-nil, length,
  length-append, arith,
}
use fanta.Text.{Str}
use fanta.Text.Utf8.{Bytes, as_bytes, as_bytes-append, from_utf8}
use fanta.Http.Slice.{take, drop, take-append, length-take, length-drop}
use fanta.Server.Date.{Timespec, later}

-- `LastRenderedNow`, with the bytes as they are.
pub record Rendered : Type 0 where
  pub bytes : Bytes
  pub amt : ℕ
  pub next_update : Timespec

abbrev zeros : ℕ → Bytes
zeros zero = []
zeros (suc n) = 0 ∷ zeros n

-- The cache that each thread begins with.
abbrev pub zeroed : Rendered
zeroed = record { bytes = zeros 128; amt = 0; next_update = record { sec = 0; nsec = 0 } }

-- The cache after a text was copied to `amt`.
abbrev pub copied : Rendered → Str → Rendered
copied cache s = record cache {
  bytes =
      take cache.amt cache.bytes
      ++ (as_bytes s ++ drop (cache.amt + length (as_bytes s)) cache.bytes);
  amt = cache.amt + length (as_bytes s);
}

-- `write_str` of `LocalBuffer`; the slice panics when its end is out of range.
unfoldable pub write_str : Rendered → Str → Option Rendered
write_str cache s =
    if leb (cache.amt + length (as_bytes s)) (length cache.bytes)
    then some (copied cache s)
    else none

-- What `write!` does with the pieces that are formatted.
unfoldable pub write_pieces : Rendered → List Str → Option Rendered
write_pieces cache [] = some cache
write_pieces cache (s ∷ pieces) = write_str cache s >>= λ next. write_pieces next pieces

-- `buffer`
unfoldable pub buffer : Rendered → Option Str
buffer cache = from_utf8 (take cache.amt cache.bytes)

abbrev pub concat : List Str → Str
concat [] = []
concat (s ∷ pieces) = s ++ concat pieces

module _ (pieces : Timespec → List Str) where
  -- `update`
  unfoldable pub update_bytes : Rendered → Timespec → Option Rendered
  update_bytes cache now = do
    written ← write_pieces (record cache { amt = 0 }) (pieces now)
    some (record written { next_update = record { sec = now.sec + 1; nsec = 0 } })

  -- `fmt` of `Now`: the text that is shown, and the cache.
  unfoldable pub show_bytes : Rendered → Timespec → Option (Str × Rendered)
  show_bytes cache now = do
    fresh ← if later now cache.next_update then update_bytes cache now else some cache
    text ← buffer fresh
    some (text, fresh)

  -- The texts that a thread shows.
  abbrev pub texts : Rendered → List Timespec → Option (List Str)
  texts cache [] = some []
  texts cache (now ∷ times) = do
    shown ← show_bytes cache now
    rest ← texts (shown.1) times
    some (shown.0 ∷ rest)

  abbrev pub rendering : Timespec → Str
  rendering now = concat (pieces now)

-- What was written up to `amt`, in as many bytes as there were.
pub record Written (cache : Rendered) (text : Bytes) (written : Rendered) : Type 0 where
  pub holds : take written.amt written.bytes ≡ take cache.amt cache.bytes ++ text
  pub to_end : written.amt ≡ cache.amt + length text
  pub same_length : length written.bytes ≡ length cache.bytes

-- Bytes that are copied over others.
take-copied :
    (k : ℕ) (b s rest : Bytes)
    → k ≤ length b
    → take (k + length s) (take k b ++ (s ++ rest)) ≡ take k b ++ s
take-copied k b s rest h =
    let len : length (take k b ++ s) ≡ k + length s =
      length-append (take k b) s ∙ ap (λ n. n + length s) (length-take k b h) in
    ap (λ n. take n (take k b ++ (s ++ rest))) (sym len)
    ∙ ap (take (length (take k b ++ s))) (sym (append_assoc (take k b) s rest))
    ∙ take-append (take k b ++ s) rest

length-copied :
    (k : ℕ) (b s : Bytes)
    → k + length s ≤ length b
    → length (take k b ++ (s ++ drop (k + length s) b)) ≡ length b
length-copied k b s h = omega (
  arith,
  length-append (take k b) (s ++ drop (k + length s) b),
  length-append s (drop (k + length s) b),
  length-take k b (omega (arith, h)),
  length-drop (k + length s) b h,
)

bytes-append : (s t : Str) → length (as_bytes (s ++ t)) ≡ length (as_bytes s) + length (as_bytes t)
bytes-append s t = ap length (as_bytes-append s t) ∙ length-append (as_bytes s) (as_bytes t)

write_str-fits :
    (cache : Rendered) (s : Str)
    → cache.amt + length (as_bytes s) ≤ length cache.bytes
    → write_str cache s ≡ some (copied cache s)
unfolding write_str
write_str-fits cache s h =
    let fits : leb (cache.amt + length (as_bytes s)) (length cache.bytes) ≡ true = ground arith in
    rw fits refl

write_str-long :
    (cache : Rendered) (s : Str)
    → length cache.bytes < cache.amt + length (as_bytes s)
    → write_str cache s ≡ none
unfolding write_str
write_str-long cache s h =
    let long : leb (cache.amt + length (as_bytes s)) (length cache.bytes) ≡ false = ground arith in
    rw long refl

-- Pieces that fit are written one behind the other.
pub write_pieces-Written :
    (cache : Rendered) (pieces : List Str)
    → cache.amt + length (as_bytes (concat pieces)) ≤ length cache.bytes
    → (written : Rendered) × ((write_pieces cache pieces ≡ some written)
        × Written cache (as_bytes (concat pieces)) written)
unfolding write_pieces as_bytes
write_pieces-Written cache [] h = (
  cache,
  (
    refl,
    record {
      holds = sym (append-nil (take cache.amt cache.bytes));
      to_end = omega arith;
      same_length = refl;
    },
  ),
)
write_pieces-Written cache (s ∷ pieces) h =
    let sizes = bytes-append s (concat pieces) in
    let fits : cache.amt + length (as_bytes s) ≤ length cache.bytes = omega (arith, h, sizes) in
    let len = length-copied cache.amt cache.bytes (as_bytes s) fits in
    let (written, (e, w)) =
      write_pieces-Written (copied cache s) pieces (omega (arith, h, sizes, len)) in
    (
      written,
      (
        rw (write_str-fits cache s fits) e,
        record {
          holds =
              w.holds
              ∙ ap (λ b. b ++ as_bytes (concat pieces))
                  (take-copied cache.amt cache.bytes (as_bytes s) _ (omega (arith, fits)))
              ∙ append_assoc (take cache.amt cache.bytes) (as_bytes s) (as_bytes (concat pieces))
              ∙ ap (λ b. take cache.amt cache.bytes ++ b) (sym (as_bytes-append s (concat pieces)));
          to_end = omega (arith, w.to_end, sizes);
          same_length = w.same_length ∙ len;
        },
      ),
    )

-- Pieces that do not fit are a panic.
pub write_pieces-long :
    (cache : Rendered) (pieces : List Str)
    → cache.amt ≤ length cache.bytes
    → length cache.bytes < cache.amt + length (as_bytes (concat pieces))
    → write_pieces cache pieces ≡ none
unfolding write_pieces as_bytes
write_pieces-long cache [] k h = absurd (omega (arith, k, h))
write_pieces-long cache (s ∷ pieces) k h =
    let sizes = bytes-append s (concat pieces) in
    elim (Bool-cases (leb (cache.amt + length (as_bytes s)) (length cache.bytes))) [
      | inl e ↦
          let fits : cache.amt + length (as_bytes s) ≤ length cache.bytes = ground (arith, e) in
          let len = length-copied cache.amt cache.bytes (as_bytes s) fits in
          rw (write_str-fits cache s fits) (
            write_pieces-long (copied cache s) pieces (omega (arith, fits, len))
              (omega (arith, h, sizes, len)))
      | inr e ↦ rw (write_str-long cache s (ground (arith, e))) refl
    ]
