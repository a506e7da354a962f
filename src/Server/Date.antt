-- ===== src/Server/Date.antt =====
-- thruster/src/core/date.rs: the rendered date that each thread keeps. The clock's reading and the
-- rendering of the crate `time` are parameters; a time is before 1970 nowhere.
pub mod Buffer
pub mod Refines
use fanta.Prelude.{
  ℕ, Bool, true, false, ◌+◌, ◌≤◌, ◌<◌, ◌≡◌, refl, inl, inr, ltb, ◌==◌, ◌&&◌, ◌||◌, if◌then◌else◌,
  List, [], ◌∷◌, arith, Bool-cases,
}
use fanta.Text.{Str}

-- `time::Timespec`
pub record Timespec : Type 0 where
  pub sec : ℕ
  pub nsec : ℕ

-- `a > b`, first by the seconds
abbrev pub later : Timespec → Timespec → Bool
later a b = ltb b.sec a.sec || (a.sec == b.sec && ltb b.nsec a.nsec)

-- The bytes up to `amt`, as text, and when they are to be rendered again.
pub record LastRenderedNow : Type 0 where
  pub buffer : Str
  pub next_update : Timespec

abbrev pub initial : LastRenderedNow
initial = record { buffer = []; next_update = record { sec = 0; nsec = 0 } }

module _ (render : Timespec → Str) where
  -- `update`
  unfoldable pub update : LastRenderedNow → Timespec → LastRenderedNow
  update cache now = record {
    buffer = render now;
    next_update = record { sec = now.sec + 1; nsec = 0 };
  }

  -- `fmt` of `Now`: what it writes is the buffer of the cache that it leaves.
  unfoldable pub show_now : LastRenderedNow → Timespec → LastRenderedNow
  show_now cache now = if later now cache.next_update then update cache now else cache

  -- The cache after the dates that a thread showed.
  abbrev pub show_all : LastRenderedNow → List Timespec → LastRenderedNow
  show_all cache [] = cache
  show_all cache (now ∷ times) = show_all (show_now cache now) times

  -- The cache holds the rendering of a time that was not later than `now`, and its next update is
  -- the beginning of the second after that time.
  pub record IsFresh (cache : LastRenderedNow) (now : Timespec) : Type 0 where
    pub rendered : Timespec
    pub shows : cache.buffer ≡ render rendered
    pub due : cache.next_update ≡ record { sec = rendered.sec + 1; nsec = 0 }
    pub past : rendered.sec ≤ now.sec
    pub recent : now.sec ≤ rendered.sec + 1

  not_later :
      (now t : Timespec)
      → later now (record { sec = t.sec + 1; nsec = 0 }) ≡ false
      → now.sec ≤ t.sec + 1
  not_later now t e = ground arith

  first_shown : (now : Timespec) → 0 < now.sec → IsFresh (show_now initial now) now
  unfolding show_now update
  first_shown now h =
      let e : later now (initial.next_update) ≡ true = ground (arith, h) in
      rw e (record {
        rendered = now;
        shows = refl;
        due = refl;
        past = omega arith;
        recent = omega arith;
      })

  -- A date that is shown is fresh, if the clock's seconds did not go back since the last one was.
  show_now-IsFresh :
      (cache : LastRenderedNow) (before now : Timespec)
      → IsFresh cache before
      → before.sec ≤ now.sec
      → IsFresh (show_now cache now) now
  unfolding show_now update
  show_now-IsFresh cache before now h le = elim (Bool-cases (later now cache.next_update)) [
    | inl e ↦ rw e (record {
      rendered = now;
      shows = refl;
      due = refl;
      past = omega arith;
      recent = omega arith;
    })
    | inr e ↦ rw e (record {
      rendered = h.rendered;
      shows = h.shows;
      due = h.due;
      past = omega (arith, h.past, le);
      recent = not_later now h.rendered (rw h.due at e);
    })
  ]

  abbrev pub last : Timespec → List Timespec → Timespec
  last t [] = t
  last t (u ∷ times) = last u times

  -- The clock's seconds do not go back.
  abbrev pub Ascending : Timespec → List Timespec → Type 0
  Ascending t [] = Unit
  Ascending t (u ∷ times) = (t.sec ≤ u.sec) × Ascending u times

  show_all_from-IsFresh :
      (cache : LastRenderedNow) (before : Timespec) (times : List Timespec)
      → IsFresh cache before
      → Ascending before times
      → IsFresh (show_all cache times) (last before times)
  show_all_from-IsFresh cache before [] h _ = h
  show_all_from-IsFresh cache before (now ∷ times) h (le, up) =
      show_all_from-IsFresh (show_now cache now) now times (show_now-IsFresh cache before now h le)
        up

  -- After any dates that a thread showed, on a clock that is past its first second and whose
  -- seconds do not go back, the text shown last renders a time that is not after the clock's and
  -- at most one second before it, by their seconds.
  pub show_all-IsFresh :
      (first : Timespec) (times : List Timespec)
      → 0 < first.sec
      → Ascending first times
      → IsFresh (show_all initial (first ∷ times)) (last first times)
  show_all-IsFresh first times h up =
      show_all_from-IsFresh (show_now initial first) first times (first_shown first h) up
