-- ===== src/Server/Framed/Fuel.antt =====
-- Two calls of `decode` of thruster/src/core/request.rs are enough for what the socket reads at once:
-- a request takes all the bytes that there are, and no bytes are no request.
use Prim.Native.Nat.{◌^◌, ◌%◌}
use mathlib.Core.Option.{some-injective}
use fanta.Prelude.{
  ℕ, suc, ◌+◌, ◌≡◌, ◌≢◌, refl, ap, sym, ◌∙◌, Option, none, some, List, [], ◌∷◌, ◌>>=◌, >>=-eq-some,
  length, Result, ok, err, Bool-cases, inl, inr, ◌==◌, arith,
}
use fanta.Text.{Str}
use fanta.Text.Utf8.{Bytes}
use fanta.Http.Slice.{Slice, drop, drop-all}
use fanta.Http.Request.{Request, Parsed, Status, partial, complete, Parser}
use fanta.Http.Decode.{Decoded, toslice, read_headers, take_request, decode_complete, decode}
use fanta.Server.Framed.{Items, frames}

-- The bytes that an outcome leaves.
abbrev left_by : Decoded → Bytes
left_by (outcome, left) = left

take_request-left :
    (buf : Bytes) (amt n v : ℕ) (m pa : Slice) (hs : List (Slice × Slice)) (r : Request)
    (left : Bytes)
    → take_request buf amt n m pa v hs ≡ (ok (some r), left)
    → left ≡ []
unfolding take_request
take_request-left buf amt n v m pa hs r left e =
    elim (Bool-cases ((amt + n) % 2 ^ 64 == length buf)) [
      | inl b ↦
          let whole : (amt + n) % 2 ^ 64 ≡ length buf = ground (arith, b) in
          sym (ap left_by (rw b at e)) ∙ ap (λ k. drop k buf) whole ∙ drop-all buf
      | inr b ↦ let e' = rw b at e in cc
    ]

toslice-ne : (buf : Bytes) (place : ℕ × ℕ) (s : Slice) → toslice buf place ≡ some s → buf ≢ []
toslice-ne [] (start, len) s e d = ground (arith, e)
toslice-ne (c ∷ buf) place s e d = cc

decode_complete-takes_all :
    (p : Parser) (buf : Bytes) (amt : ℕ) (found : Parsed) (r : Request) (left : Bytes)
    → decode_complete p buf amt found ≡ some (ok (some r), left)
    → (left ≡ []) × (buf ≢ [])
unfolding decode_complete
decode_complete-takes_all p buf amt found r left d =
    let (heads, _, d1) = >>=-eq-some (read_headers p buf found.parsed_headers 0) _ d in
    let (m, _, d2) = >>=-eq-some found.parsed_method _ d1 in
    let (ms, e3, d3) = >>=-eq-some (toslice buf m) _ d2 in
    let (pa, _, d4) = >>=-eq-some found.parsed_path _ d3 in
    let (ps, _, d5) = >>=-eq-some (toslice buf pa) _ d4 in
    let (v, _, d6) = >>=-eq-some found.parsed_version _ d5 in
    (
      take_request-left buf amt (heads.0) v ms ps (heads.1) r left (some-injective _ _ d6),
      toslice-ne buf m ms e3,
    )

decode-cases :
    (p : Parser) (buf : Bytes) (s : Result Status Str) (r : Request) (left : Bytes)
    → p.parse buf ≡ s
    → decode p buf ≡ some (ok (some r), left)
    → (left ≡ []) × (buf ≢ [])
unfolding decode
decode-cases p buf (err e) r left q d = let d' = rw (q, decode) at d in cc
decode-cases p buf (ok partial) r left q d = let d' = rw (q, decode) at d in cc
decode-cases p buf (ok (complete amt found)) r left q d =
    decode_complete-takes_all p buf amt found r left (rw (q, decode) at d)

pub decode-takes_all :
    (p : Parser) (buf : Bytes) (r : Request) (left : Bytes)
    → decode p buf ≡ some (ok (some r), left)
    → (left ≡ []) × (buf ≢ [])
decode-takes_all p buf r left d = decode-cases p buf (p.parse buf) r left refl d

module _ (p : Parser) (next : Bytes → Option Items) where
  frames-empty :
      (k : ℕ) (d : Option Decoded) → decode p [] ≡ d → frames p (suc k) [] next ≡ frames p 1 [] next
  unfolding frames
  frames-empty k none e = rw e refl
  frames-empty k (some (err x, left)) e = rw e refl
  frames-empty k (some (ok none, left)) e = rw e refl
  frames-empty k (some (ok (some r), left)) e = absurd ((decode-takes_all p [] r left e).1 refl)

  frames-at :
      (k : ℕ) (buffer : Bytes) (d : Option Decoded)
      → decode p buffer ≡ d
      → frames p (suc (suc k)) buffer next ≡ frames p 2 buffer next
  unfolding frames
  frames-at k buffer none e = rw e refl
  frames-at k buffer (some (err x, left)) e = rw e refl
  frames-at k buffer (some (ok none, left)) e = rw e refl
  frames-at k buffer (some (ok (some r), left)) e =
      let nothing = (decode-takes_all p buffer r left e).0 in
      rw (e, nothing)
        (ap (λ o. o >>= λ items. some (ok r ∷ items)) (frames-empty k (decode p []) refl))

  -- More fuel than two changes nothing.
  frames-enough :
      (k : ℕ) (buffer : Bytes) → frames p (suc (suc k)) buffer next ≡ frames p 2 buffer next
  frames-enough k buffer = frames-at k buffer (decode p buffer) refl
