-- ===== src/Server/Wire.antt =====
-- What clients read off the connection: `process` of thruster/src/server/homegrown_server.rs with
-- `encode` of thruster/src/core/response.rs under it.
use Prim.Native.Nat.{◌^◌}
use fanta.Prelude.{
  ℕ, zero, suc, ◌<◌, ◌≡◌, ap, sym, refl, ◌∙◌, Option, some, List, [], ◌∷◌, ◌++◌, append_assoc,
  append-nil, ◌>>=◌, map, length, All, Result, ok, IoError,
}
use fanta.Context.{Context}
use fanta.App.{App}
use fanta.Text.{Str}
use fanta.Text.Split.{Lacks}
use fanta.Text.Utf8.{Bytes, as_bytes}
use fanta.Http.Request.{Request}
use fanta.Http.Response.{Response, show_status, encode}
use fanta.Http.Client.{read_message, rows, IsLine, status_line, read_message-encode}
use fanta.Server.{Served, Answers, process, process-in_order, no_requests, answered}

-- What `encode` makes of some responses in one buffer, as the framed socket calls it for each.
unfoldable pub write : Str → List Response → Bytes → Bytes
write now [] buf = buf
write now (r ∷ responses) buf = write now responses (encode now r buf)

abbrev first_line : List Bytes → Bytes
first_line [] = []
first_line (line ∷ lines) = line

-- The status line and the body of some messages.
unfoldable pub read_messages : ℕ → Bytes → Option (List (Bytes × Bytes) × Bytes)
read_messages zero s = some ([], s)
read_messages (suc n) s = do
  (head, (body, rest)) ← read_message s
  (messages, behind) ← read_messages n rest
  some ((first_line head, body) ∷ messages, behind)

-- A response whose status and headers are lines, with a body whose length is a `usize`.
abbrev pub IsReadable : Response → Type 0
IsReadable r =
    (hs : List Bytes) × ((r.header_raw ≡ rows hs)
      × (All IsLine hs
          × (Lacks b'\r' (as_bytes (show_status r.status_message)) × (length r.response < 2 ^ 64))))

-- `encode` puts what it writes behind what is in the buffer.
encode-buffer : (now : Str) (r : Response) (buf : Bytes) → encode now r buf ≡ buf ++ encode now r []
unfolding encode
encode-buffer now r buf = refl

write-buffer :
    (now : Str) (responses : List Response) (buf : Bytes)
    → write now responses buf ≡ buf ++ write now responses []
unfolding write
write-buffer now [] buf = sym (append-nil buf)
write-buffer now (r ∷ responses) buf =
    write-buffer now responses (encode now r buf)
    ∙ ap (λ b. b ++ write now responses []) (encode-buffer now r buf)
    ∙ append_assoc buf (encode now r []) (write now responses [])
    ∙ ap (λ b. buf ++ b) (sym (write-buffer now responses (encode now r [])))

pub read_messages-write :
    (now : Str) (responses : List Response) (rest : Bytes)
    → Lacks b'\r' (as_bytes now)
    → All IsReadable responses
    → read_messages (length responses) (write now responses [] ++ rest)
      ≡ some (map (λ (r : Response). (status_line r, r.response)) responses, rest)
unfolding read_messages write
read_messages-write now [] rest hn h = refl
read_messages-write now (r ∷ responses) rest hn ((hs, (e, (l, (m, b)))), h) = rw (
  write-buffer now responses (encode now r []),
  append_assoc (encode now r []) (write now responses []) rest,
  read_message-encode now r hs (write now responses [] ++ rest) e l m hn b,
  read_messages-write now responses rest hn h,
)

module _ {ℓ σ} {T : Type ℓ} {S : Type σ} ⦃c : Context T Response⦄ where
  length-Answers :
      (app : App Request T S) {requests : List Request} {responses : List Response}
      → Answers app requests responses
      → length requests ≡ length responses
  length-Answers app no_requests = refl
  length-Answers app (answered _ t) = ap suc (length-Answers app t)

  -- Requests that wait on one connection: while they are answered and the socket takes the
  -- responses, the loop ends well, and the client reads, off the bytes that were written, as many
  -- messages as it sent requests, in their order, each with the status line and the whole body of
  -- its response, and nothing behind them. The conditions are that no carriage return is in the
  -- date, and that each response's status and headers are lines and its body's length is a `usize`.
  pub process-read :
      (now : Str) (app : App Request T S) (send : Response → Result {0, 0} Unit IoError)
      {requests : List Request} {responses : List Response}
      → Answers app requests responses
      → ((r : Response) → send r ≡ ok tt)
      → Lacks b'\r' (as_bytes now)
      → All IsReadable responses
      → (served : Served) × ((process app send (map (λ r. ok r) requests) ≡ some served)
          × ((served.outcome ≡ ok tt)
              × (read_messages (length requests) (write now served.sent [])
                  ≡ some (map (λ (r : Response). (status_line r, r.response)) responses, []))))
  process-read now app send {responses = responses} answers takes hn h = (
    record { sent = responses; outcome = ok tt },
    (
      (process-in_order app send answers takes).1,
      (
        refl,
        ap (λ n. read_messages n (write now responses [])) (length-Answers app answers)
            ∙ ap (read_messages (length responses)) (sym (append-nil (write now responses [])))
            ∙ read_messages-write now responses [] hn h,
      ),
    ),
  )
