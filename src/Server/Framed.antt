-- ===== src/Server/Framed.antt =====
-- The stream of the framed socket in `process` of thruster/src/server/homegrown_server.rs: the calls
-- that `Framed` of tokio-util makes of `decode` of thruster/src/core/request.rs. As that crate
-- documents them, a read is followed by `decode` until it yields nothing; a read of no bytes is the
-- end, where `decode_eof`, which `Http` leaves as it is, calls `decode` too, and refuses what is left
-- in the buffer.
pub mod Fuel
use fanta.Prelude.{
  ℕ, zero, suc, ◌≡◌, ◌≢◌, refl, ap, ◌∙◌, Option, none, some, List, [], ◌∷◌, ◌++◌, ◌>>=◌, Result, ok,
  err, IoError,
}
use fanta.Text.Utf8.{Bytes}
use fanta.Http.Request.{Request, Parser}
use fanta.Http.Decode.{decode}

-- What the stream yields.
abbrev pub Items : Type 0
Items = List (Result Request IoError)

abbrev pub Item : Type 0
Item = Result Request IoError

module _ (p : Parser) where
  -- `decode` again and again, at most as often as the fuel says; then what comes next of the bytes
  -- that are left. The loop of `process` ends at an error, so that nothing is asked for behind it.
  unfoldable pub frames : ℕ → Bytes → (Bytes → Option Items) → Option Items
  frames zero buffer next = next buffer
  frames (suc fuel) buffer next = do
    (outcome, left) ← decode p buffer
    elim outcome [
      | err e ↦ some (err e ∷ [])
      | ok none ↦ next left
      | ok (some request) ↦ do some (ok request ∷ (← frames fuel left next))
    ]

  -- `unread` is the error of bytes that remain on the stream at its end.
  abbrev pub at_end : IoError → Bytes → Option Items
  at_end unread [] = some []
  at_end unread (c ∷ left) = some (err unread ∷ [])

  -- What is yielded for what the socket reads, from a buffer. The fuel is two: `decode` only yields
  -- a request that takes the whole buffer, and yields none of no bytes.
  unfoldable pub stream : IoError → Bytes → List Bytes → Option Items
  stream unread buffer [] = frames 2 buffer (at_end unread)
  stream unread buffer ([] ∷ parts) = frames 2 buffer (at_end unread)
  stream unread buffer ((c ∷ part) ∷ parts) =
      frames 2 (buffer ++ c ∷ part) (λ left. stream unread left parts)

  pub frames-waits :
      (fuel : ℕ) (buffer : Bytes) (next : Bytes → Option Items)
      → decode p buffer ≡ some (ok none, buffer)
      → frames (suc fuel) buffer next ≡ next buffer
  unfolding frames
  frames-waits fuel buffer next e = rw e refl

  pub frames-whole :
      (fuel : ℕ) (buffer : Bytes) (r : Request) (next : Bytes → Option Items)
      → decode p buffer ≡ some (ok (some r), [])
      → decode p [] ≡ some (ok none, [])
      → frames (suc (suc fuel)) buffer next ≡ (next [] >>= λ items. some (ok r ∷ items))
  unfolding frames
  frames-whole fuel buffer r next e d = rw (e, d) refl

  pub stream-waits :
      (unread : IoError) (buffer part : Bytes) (parts : List Bytes)
      → part ≢ []
      → decode p (buffer ++ part) ≡ some (ok none, buffer ++ part)
      → stream unread buffer (part ∷ parts) ≡ stream unread (buffer ++ part) parts
  stream-waits unread buffer [] parts n e = absurd (n refl)
  stream-waits unread buffer (c ∷ part) parts n e =
      unfold stream in frames-waits 1 (buffer ++ c ∷ part) (λ left. stream unread left parts) e

  pub stream-whole :
      (unread : IoError) (buffer part : Bytes) (r : Request) (parts : List Bytes)
      → part ≢ []
      → decode p (buffer ++ part) ≡ some (ok (some r), [])
      → decode p [] ≡ some (ok none, [])
      → stream unread buffer (part ∷ parts)
        ≡ (stream unread [] parts >>= λ items. some (ok r ∷ items))
  stream-whole unread buffer [] r parts n e d = absurd (n refl)
  stream-whole unread buffer (c ∷ part) r parts n e d =
      unfold stream in frames-whole 0 (buffer ++ c ∷ part) r (λ left. stream unread left parts) e d
