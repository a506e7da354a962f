-- ===== src/Server/Connection.antt =====
-- A connection of the homegrown server from the bytes that arrive to the responses that are sent:
-- `decode` of thruster/src/core/request.rs under the loop of thruster/src/server/homegrown_server.rs.
use Prim.Native.Nat.{◌^◌}
use fanta.Prelude.{
  ℕ, ◌<◌, ◌≡◌, ◌≢◌, refl, sym, ap, ◌∙◌, Option, none, some, List, [], ◌∷◌, ◌++◌, append_assoc,
  append-nil, ◌>>=◌, length, length-append, Result, ok, err, IoError, All, arith,
}
use fanta.Context.{Context}
use fanta.App.{App}
use fanta.Text.Utf8.{Bytes}
use fanta.Http.Slice.{Slice}
use fanta.Http.Request.{Request, Parser, raw_body}
use fanta.Http.Response.{Response}
use fanta.Http.Decode.{decode, toslice}
use fanta.Http.Framing.{decode-waits}
use fanta.Http.Arrival.{
  concat, Heads, decode-partial, append-ne, length-ne, decode-prefix, decode-arrives,
}
use fanta.Server.{Served, answer_request, process, process-answered}
use fanta.Server.Framed.{at_end, frames-waits, stream, stream-waits, stream-whole}

abbrev pub IsRead : Bytes → Type 0
IsRead part = part ≢ []

-- A head that the parser finds complete has bytes, since its method has.
toslice-nothing : (place : ℕ × ℕ) (s : Slice) → toslice [] place ≢ some s
toslice-nothing (start, len) s e = ground (arith, e)

head-ne : (p : Parser) (head : Bytes) (n : ℕ) → Heads p head n → head ≢ []
head-ne p [] n h e =
    let whole = h.reads [] in toslice-nothing whole.method whole.method_slice whole.method_lies
head-ne p (c ∷ head) n h e = cc

append-eq-nil : (s t : Bytes) → s ++ t ≡ [] → s ≡ []
append-eq-nil [] t e = refl
append-eq-nil (c ∷ s) t e = cc

sizes :
    (head body over rest : Bytes)
    → length (head ++ ((body ++ over) ++ rest)) < 2 ^ 64
    → (length (head ++ body) < 2 ^ 64) × (length (head ++ (body ++ over)) < 2 ^ 64)
sizes head body over rest l =
    let a = length-append head body in
    let b = length-append head (body ++ over) in
    let c = length-append body over in
    let d = length-append (body ++ over) rest in
    let e = length-append head ((body ++ over) ++ rest) in
    (omega (arith, l, a, b, c, d, e), omega (arith, l, a, b, c, d, e))

-- No bytes are no request.
decode-nothing :
    (p : Parser) (head : Bytes) (n : ℕ) → Heads p head n → decode p [] ≡ some (ok none, [])
decode-nothing p head n h = decode-partial p [] (h.waits [] head (head-ne p head n h) refl)

module _ (p : Parser) (unread : IoError) where
  -- While the parts stop short of the end of a message, they pile up in the buffer.
  stream-prefix :
      (buffer head body part : Bytes) (parts rest : List Bytes)
      → Heads p head (length body)
      → length (head ++ body) < 2 ^ 64
      → IsRead part
      → All IsRead parts
      → buffer ++ (concat parts ++ part) ≡ head ++ body
      → stream p unread buffer (parts ++ rest) ≡ stream p unread (buffer ++ concat parts) rest
  stream-prefix buffer head body part [] rest h l n _ e = rw (append-nil buffer) refl
  stream-prefix buffer head body part (c ∷ parts) rest h l n (m, ms) e =
      let e' : (buffer ++ c) ++ (concat parts ++ part) ≡ head ++ body =
        append_assoc buffer c (concat parts ++ part)
        ∙ ap (λ k. buffer ++ k) (sym (append_assoc c (concat parts) part))
        ∙ e in
      stream-waits p unread buffer c (parts ++ rest) m (
        decode-prefix p (buffer ++ c) (concat parts ++ part) head body h l
          (append-ne (concat parts) part n) e')
      ∙ stream-prefix (buffer ++ c) head body part parts rest h l n ms e'
      ∙ ap (λ b. stream p unread b rest) (append_assoc buffer c (concat parts))

  decode-over :
      (head over : Bytes) (n : ℕ)
      → Heads p head n
      → n < length over
      → length (head ++ over) < 2 ^ 64
      → decode p (head ++ over) ≡ some (ok none, head ++ over)
  decode-over head over n h more l =
      decode-waits p (head ++ over) (length head) n (h.reads over)
        (omega (arith, length-append head over)) l
        (λ q. omega (arith, q, more, length-append head over))

  at_end-ne : (left : Bytes) → left ≢ [] → at_end p unread left ≡ some (err unread ∷ [])
  at_end-ne [] n = absurd (n refl)
  at_end-ne (c ∷ left) n = refl

  -- Once there is more than a message in the buffer, all that is read piles up, and is refused at the
  -- end of the stream.
  stream-over :
      (head over : Bytes) (n : ℕ) (later : List Bytes)
      → Heads p head n
      → n < length over
      → length (head ++ (over ++ concat later)) < 2 ^ 64
      → All IsRead later
      → stream p unread (head ++ over) later ≡ some (err unread ∷ [])
  unfolding stream
  stream-over head over n [] h more l _ =
      let l' = rw (append-nil over) at l in
      frames-waits p 1 (head ++ over) (at_end p unread) (decode-over head over n h more l')
      ∙ at_end-ne (head ++ over) (λ e. head-ne p head n h (append-eq-nil head over e))
  stream-over head over n (c ∷ later) h more l (m, ms) =
      let joined : (head ++ over) ++ c ≡ head ++ (over ++ c) = append_assoc head over c in
      let shift : (over ++ c) ++ concat later ≡ over ++ (c ++ concat later) =
        append_assoc over c (concat later) in
      let l' : length (head ++ ((over ++ c) ++ concat later)) < 2 ^ 64 = rw shift l in
      let more' : n < length (over ++ c) = omega (arith, more, length-append over c) in
      let whole : length (head ++ (over ++ c)) < 2 ^ 64 = omega (
        arith,
        l',
        length-append head (over ++ c),
        length-append (over ++ c) (concat later),
        length-append head ((over ++ c) ++ concat later),
      ) in
      stream-waits p unread (head ++ over) c later m
        (rw joined (decode-over head (over ++ c) n h more' whole))
      ∙ ap (λ b. stream p unread b later) joined
      ∙ stream-over head (over ++ c) n later h more' l' ms

  stream-closed : decode p [] ≡ some (ok none, []) → stream p unread [] [] ≡ some []
  unfolding stream
  stream-closed e = frames-waits p 1 [] (at_end p unread) e

  -- A message, and then the end of the stream.
  stream-message :
      (head body part : Bytes) (parts : List Bytes)
      → Heads p head (length body)
      → length (head ++ body) < 2 ^ 64
      → All IsRead parts
      → IsRead part
      → concat parts ++ part ≡ head ++ body
      → (r : Request) × (raw_body r ≡ some body)
        × (decode p (head ++ body) ≡ some (ok (some r), []))
        × (stream p unread [] (parts ++ part ∷ []) ≡ some (ok r ∷ []))
  stream-message head body part parts h l ps n e =
      let (r, _, b, _, whole) = decode-arrives p head body part parts h l n e in
      let nothing = decode-nothing p head (length body) h in
      (
        r,
        b,
        whole,
        stream-prefix [] head body part parts (part ∷ []) h l n ps e
            ∙ stream-whole p unread (concat parts) part r [] n (rw e whole) nothing
            ∙ ap (λ o. o >>= λ items. some (ok r ∷ items)) (stream-closed nothing),
      )

  -- A read that brings more than the message.
  stream-crowded :
      (head body part : Bytes) (parts : List Bytes) (over : Bytes) (later : List Bytes)
      → Heads p head (length body)
      → All IsRead parts
      → IsRead part
      → concat parts ++ part ≡ head ++ body
      → over ≢ []
      → All IsRead later
      → length (head ++ ((body ++ over) ++ concat later)) < 2 ^ 64
      → stream p unread [] (parts ++ (part ++ over) ∷ later) ≡ some (err unread ∷ [])
  stream-crowded head body part parts over later h ps n e more ms l =
      let (short, crowded) = sizes head body over (concat later) l in
      let shift : concat parts ++ (part ++ over) ≡ head ++ (body ++ over) =
        sym (append_assoc (concat parts) part over)
        ∙ ap (λ k. k ++ over) e
        ∙ append_assoc head body over in
      let longer : length body < length (body ++ over) =
        omega (arith, length-append body over, length-ne over more) in
      stream-prefix [] head body part parts ((part ++ over) ∷ later) h short n ps e
      ∙ stream-waits p unread (concat parts) (part ++ over) later (append-ne part over more)
          (rw shift (decode-over head (body ++ over) (length body) h longer crowded))
      ∙ ap (λ b. stream p unread b later) shift
      ∙ stream-over head (body ++ over) (length body) later h longer l ms

module _ {ℓ σ} {T : Type ℓ} {S : Type σ} ⦃c : Context T Response⦄ where
  -- The loop on what comes of the parts that the socket reads before its end; `unread` is the error of
  -- bytes that remain there.
  unfoldable pub serve_parts :
      Parser
      → IoError
      → App Request T S
      → (Response → Result {0, 0} Unit IoError)
      → List Bytes
      → Option Served
  serve_parts p unread app send parts = do items ← stream p unread [] parts; process app send items

  -- The socket takes every response, and the app answers the request that a message of fewer than
  -- 2^64 bytes holds. However the message is cut into parts that the socket reads, the connection
  -- sends one response, the answer to the request with the message's body, and ends well when the
  -- client closes it behind the message. But if the read that brings the end of the message brings
  -- more bytes, then, whatever is read later within 2^64 bytes, the connection sends nothing, and
  -- ends in the error of bytes that remain on the stream when the client closes it.
  pub serve_parts-message :
      (p : Parser) (unread : IoError) (app : App Request T S)
      (send : Response → Result {0, 0} Unit IoError) (reply : Request → Response)
      (head body part : Bytes) (parts : List Bytes) (over : Bytes) (later : List Bytes)
      → ((response : Response) → send response ≡ ok tt)
      → ((r : Request)
          → decode p (head ++ body) ≡ some (ok (some r), [])
          → answer_request app r ≡ some (ok (reply r)))
      → Heads p head (length body)
      → All IsRead parts
      → IsRead part
      → concat parts ++ part ≡ head ++ body
      → over ≢ []
      → All IsRead later
      → length (head ++ ((body ++ over) ++ concat later)) < 2 ^ 64
      → ((r : Request) × (raw_body r ≡ some body)
          × (serve_parts p unread app send (parts ++ part ∷ [])
              ≡ some (record { sent = reply r ∷ []; outcome = ok tt })))
        × (serve_parts p unread app send (parts ++ (part ++ over) ∷ later)
            ≡ some (record { sent = []; outcome = err (record { message = unread.message }) }))
  unfolding serve_parts
  serve_parts-message p unread app send reply head body part parts over later takes answers h ps n e
        more ms l =
      let (short, _) = sizes head body over (concat later) l in
      let (r, b, whole, one) = stream-message p unread head body part parts h short ps n e in
      (
        (
          r,
          b,
          ap (λ o. o >>= process app send) one
              ∙ process-answered app send r (reply r) [] (answers r whole) (takes (reply r))
              ∙ unfold process in refl,
        ),
        ap (λ o. o >>= process app send)
              (stream-crowded p unread head body part parts over later h ps n e more ms l)
            ∙ unfold process in refl,
      )
