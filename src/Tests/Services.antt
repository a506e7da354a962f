-- ===== src/Tests/Services.antt =====
-- The date, the files and the loop of the server at concrete inputs.
use fanta.Prelude.{
  none, ℕ, zero, suc, All, ◌≡◌, refl, [], ◌∷◌, ◌++◌, some, ok, err, Result, IoError, map, arith,
  Bool-cases, inl, inr, List, if◌then◌else◌, ◌>>=◌,
}
use fanta.Text.{Str, codes, str_eq}
use fanta.Text.Decimal.{decimal}
use fanta.Text.Utf8.{IsScalar, as_bytes, encode_char, Bytes, from_utf8, decode_from, feed}
use fanta.Text.Split.{str_eq_sound}
use fanta.Map.{get}
use fanta.Builtin.Files.{replace, replace_from, get_file, NoDots, get_file-safe}
use fanta.App.{App, resolve, resolve_from_method_and_path}
use fanta.Http.Slice.{index, take, drop}
use fanta.Http.Request.{Request, new_request, text, slice}
use fanta.Http.Response.{Response, new_response}
use fanta.Basic.{BasicContext, basic_context}
use fanta.Basic.Unmatched.{new_basic}
use fanta.Server.{process, Answers, no_requests, answered, answer_request, process-in_order}
use fanta.Server.Date.Buffer.{zeroed, texts}
use fanta.Server.Date.Refines.{Fits, texts-shown}
use fanta.Server.Date.{
  update, show_now, Timespec, last, initial, show_all, IsFresh, Ascending, show_all-IsFresh,
}
use fanta.Server.Secure.{secure_process, plainly, stopped, secure_process-process}

-- Opens what the runs below compute with.
opened : ℕ
unfolding replace replace_from get_file get str_eq
opened = 0

traversal : replace (codes "..") [] (codes "/a/../b...") ≡ codes "/a//b."
unfolding opened
traversal = refl

-- A disk with one file.
abbrev disk : Str → Result Bytes IoError
disk path =
    if str_eq path (codes "/f") then ok (codes "x") else err (record { message = codes "no" })

-- Another disk, which has a file at a path with two dots in a row.
abbrev secret_disk : Str → Result Bytes IoError
secret_disk path = if str_eq path (codes "/../s") then ok (codes "secret") else disk path

same_without_dots : (path : Str) → NoDots path → disk path ≡ secret_disk path
same_without_dots path h = elim (Bool-cases (str_eq path (codes "/../s"))) [
  | inl e ↦ absurd ((rw (str_eq_sound path (codes "/../s") e) at h).1.0 refl refl)
  | inr e ↦ rw e refl
]

get_file-safe_example :
    get_file disk none [] (codes "/../s") ≡ get_file secret_disk none [] (codes "/../s")
get_file-safe_example = get_file-safe disk secret_disk none [] (codes "/../s") same_without_dots

-- A clock that shows 5 and then 7 seconds, and a rendering of the seconds.
abbrev five : Timespec
five = record { sec = 5; nsec = 1 }

abbrev seven : Timespec
seven = record { sec = 7; nsec = 0 }

abbrev seconds : Timespec → Str
seconds t = decimal t.sec

seven-Ascending : Ascending seconds five (seven ∷ [])
seven-Ascending = (omega arith, tt)

show_all-IsFresh_example :
    IsFresh seconds (show_all seconds initial (five ∷ seven ∷ [])) (last seconds five (seven ∷ []))
show_all-IsFresh_example = show_all-IsFresh seconds five (seven ∷ []) (omega arith) seven-Ascending

-- The app without routes, and the request without a path.
abbrev pub app : App {0, 0, 0} Request BasicContext Unit
app = new_basic

abbrev pub stray_response : Response
stray_response =
    elim (resolve ⦃c = basic_context⦄ app new_request (resolve_from_method_and_path app [] [])) [
      | ok r ↦ r
      | err e ↦ new_response
    ]

stray_answered : answer_request ⦃c = basic_context⦄ app new_request ≡ some (ok stray_response)
unfolding answer_request text slice index take drop from_utf8 decode_from feed resolve
stray_answered = refl

pub one_answer : Answers ⦃c = basic_context⦄ app (new_request ∷ []) (stray_response ∷ [])
one_answer = answered stray_answered no_requests

abbrev pub takes : Response → Result {0, 0} Unit IoError
takes r = ok tt

process-in_order_example :
    ((e : IoError) (items : List (Result Request IoError))
      → process ⦃c = basic_context⦄ app takes
          (map (λ (r : Request). ok r) (new_request ∷ []) ++ err e ∷ items)
        ≡ some
            (record { sent = stray_response ∷ []; outcome = err (record { message = e.message }) }))
    × (process ⦃c = basic_context⦄ app takes (map (λ (r : Request). ok r) (new_request ∷ []))
        ≡ some (record { sent = stray_response ∷ []; outcome = ok tt }))
process-in_order_example = process-in_order ⦃c = basic_context⦄ app takes one_answer (λ r. refl)

secure_process-process_example :
    ((secure_process ⦃c = basic_context⦄ app (ok tt) takes (ok new_request ∷ []) >>= λ s.
    some (plainly s))
      ≡ process ⦃c = basic_context⦄ app takes (ok new_request ∷ []))
    × (secure_process ⦃c = basic_context⦄ app
          (err (record { message = codes "tls" }))
          takes
          (ok new_request ∷ [])
        ≡ some (stopped (record { message = codes "tls" })))
secure_process-process_example =
    secure_process-process ⦃c = basic_context⦄ app takes (ok new_request ∷ [])
      (record { message = codes "tls" })

-- A date in two pieces, as many marks as seconds.
abbrev marks : ℕ → Str
marks zero = []
marks (suc n) = b'x' ∷ marks n

abbrev marked : Timespec → List Str
marked t = codes "at " ∷ marks t.sec ∷ []

abbrev late : Timespec
late = record { sec = 130; nsec = 0 }

marks-IsScalar : (n : ℕ) → All IsScalar (marks n ++ [])
marks-IsScalar zero = tt
marks-IsScalar (suc n) = (refl, marks-IsScalar n)

marks-Fit : All (Fits marked) (five ∷ seven ∷ [])
unfolding as_bytes encode_char
marks-Fit = (
  (omega arith, (refl, (refl, (refl, marks-IsScalar 5)))),
  ((omega arith, (refl, (refl, (refl, marks-IsScalar 7)))), tt),
)

texts-shown_example :
    (texts marked zeroed (five ∷ seven ∷ []) ≡ some (codes "at xxxxx" ∷ codes "at xxxxxxx" ∷ []))
    × (texts marked zeroed (late ∷ five ∷ seven ∷ []) ≡ none)
unfolding show_now update as_bytes encode_char
texts-shown_example =
    texts-shown marked (five ∷ seven ∷ []) late marks-Fit (omega arith) (omega arith)
