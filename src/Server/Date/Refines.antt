-- ===== src/Server/Date/Refines.antt =====
-- The buffer of thruster/src/core/date.rs refines the cache that keeps the date as a text.
use fanta.Prelude.{
  true, ◌+◌, ◌≤◌, ◌<◌, ◌≡◌, refl, ap, sym, ◌∙◌, inl, inr, Bool-cases, none, some, List, [], ◌∷◌,
  length, All, arith,
}
use fanta.Text.{Str}
use fanta.Text.Utf8.{IsScalar, as_bytes, decode_from, from_utf8, from_utf8-as_bytes}
use fanta.Http.Slice.{take}
use fanta.Server.Date.{Timespec, later, LastRenderedNow, initial, update, show_now}
use fanta.Server.Date.Buffer.{
  Rendered, zeroed, buffer, update_bytes, show_bytes, rendering, texts, write_pieces-Written,
  write_pieces-long,
}

-- The cache shows what the other one does, is due when it is, and has its 128 bytes.
pub record Agrees (cache : Rendered) (last : LastRenderedNow) : Type 0 where
  pub shows : buffer cache ≡ some last.buffer
  pub due : cache.next_update ≡ last.next_update
  pub bytes_128 : length cache.bytes ≡ 128

module _ (pieces : Timespec → List Str) where
  -- A date of at most 128 bytes.
  abbrev pub Fits : Timespec → Type 0
  Fits now = (length (as_bytes (rendering pieces now)) ≤ 128) × All IsScalar (rendering pieces now)

  update_bytes-Agrees :
      (cache : Rendered) (last : LastRenderedNow) (now : Timespec)
      → length cache.bytes ≡ 128
      → Fits now
      → (fresh : Rendered) × ((update_bytes pieces cache now ≡ some fresh)
          × Agrees fresh (update (rendering pieces) last now))
  unfolding update_bytes update buffer take
  update_bytes-Agrees cache last now l (h, scalars) =
      let (written, (e, w)) =
        write_pieces-Written (record cache { amt = 0 }) (pieces now) (omega (arith, h, l)) in
      (
        record written { next_update = record { sec = now.sec + 1; nsec = 0 } },
        (
          rw e refl,
          record {
            shows = ap from_utf8 w.holds ∙ from_utf8-as_bytes (rendering pieces now) scalars;
            due = refl;
            bytes_128 = w.same_length ∙ l;
          },
        ),
      )

  show_bytes-Agrees :
      (cache : Rendered) (last : LastRenderedNow) (now : Timespec)
      → Agrees cache last
      → Fits now
      → (fresh : Rendered) × ((show_bytes pieces cache now
            ≡ some ((show_now (rendering pieces) last now).buffer, fresh))
          × Agrees fresh (show_now (rendering pieces) last now))
  unfolding show_bytes show_now
  show_bytes-Agrees cache last now agrees fits =
      let same : later now cache.next_update ≡ later now last.next_update =
        ap (later now) agrees.due in
      elim (Bool-cases (later now cache.next_update)) [
        | inl e ↦
            let (fresh, (u, a)) = update_bytes-Agrees cache last now agrees.bytes_128 fits in
            let e' = sym same ∙ e in (fresh, (rw (e, u, e', a.shows) refl, rw e' a))
        | inr e ↦ let e' = sym same ∙ e in (cache, (rw (e, e', agrees.shows) refl, rw e' agrees))
      ]

  -- The texts that a thread shows, when they are kept as texts.
  abbrev pub shown : LastRenderedNow → List Timespec → List Str
  shown last [] = []
  shown last (now ∷ times) =
      let next = show_now (rendering pieces) last now in next.buffer ∷ shown next times

  texts-Agrees :
      (cache : Rendered) (last : LastRenderedNow) (times : List Timespec)
      → Agrees cache last
      → All Fits times
      → texts pieces cache times ≡ some (shown last times)
  texts-Agrees cache last [] agrees _ = refl
  texts-Agrees cache last (now ∷ times) agrees (fits, h) =
      let (fresh, (e, agrees')) = show_bytes-Agrees cache last now agrees fits in
      rw (e, texts-Agrees fresh (show_now (rendering pieces) last now) times agrees' h) refl

  -- While each date is a text of at most 128 bytes, a thread shows the texts that it would show if
  -- it kept them as texts; but a first date of more than 128 bytes, on a clock that is past its
  -- first second, is a panic.
  pub texts-shown :
      (times : List Timespec) (long : Timespec)
      → All Fits times
      → 128 < length (as_bytes (rendering pieces long))
      → 0 < long.sec
      → (texts pieces zeroed times ≡ some (shown initial times))
        × (texts pieces zeroed (long ∷ times) ≡ none)
  unfolding show_bytes update_bytes decode_from
  texts-shown times long h l n =
      let none_yet : Agrees zeroed initial = record {
        shows = unfold buffer take from_utf8 in refl;
        due = refl;
        bytes_128 = refl;
      } in
      let now_later : later long (record { sec = 0; nsec = 0 }) ≡ true = ground (arith, n) in
      (
        texts-Agrees zeroed initial times none_yet h,
        rw (now_later, write_pieces-long zeroed (pieces long) (omega arith) (omega (arith, l)))
            refl,
      )
