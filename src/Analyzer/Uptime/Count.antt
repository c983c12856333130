-- ===== src/Analyzer/Uptime/Count.antt =====
-- The count of GetUptime is the greedy count of the creation times of the identity's submissions.
use mathlib.Core.List.{append_assoc, append-nil}
use mathlib.Core.Path.{subst}
use uptime_service_backend.Base.{
  ℕ, ◌+◌, ◌≡◌, refl, sym, ap, ◌∙◌, Bool, true, false, Option, none, some, List, [], ◌∷◌, ◌++◌,
  arith, inl, inr, Bool-cases, Option-cases, if◌then◌else◌,
}
use uptime_service_backend.Base.Result.{Result, ok, err, ◌>>=◌}
use uptime_service_backend.Base.Text.{Bytes, is_empty}
use uptime_service_backend.Clock.{Instant, Duration}
use uptime_service_backend.Externals.{Externals}
use uptime_service_backend.Request.{MetaToBeSaved}
use uptime_service_backend.Analyzer.{Halt, fatal, Object, Listing, Libraries}
use uptime_service_backend.Analyzer.Identity.{Identity, Settings}
use uptime_service_backend.Analyzer.Uptime.{
  Progress, read_object, matches_identity, count_submission, visit, visit_page, visit_pages,
  start_of,
}
use uptime_service_backend.Analyzer.Uptime.Greedy.{is_spaced, greedy}
use uptime_service_backend.Analyzer.Uptime.Times.{
  Times, and_then, time_if, time_if_read, time_of, page_times, times,
}

module _ (lib : Libraries) (ext : Externals) (config : Settings) (identity : Identity)
    (matches : Bytes → Bool) where
  module _ (wait : Duration) (empty_is_no_time : lib.parse_time [] ≡ none) where
    -- The text that is kept is that of the instant that counted last.
    abbrev Keeps : Option Instant → Progress → Type 0
    Keeps none p = p.last ≡ []
    Keeps (some t) p = lib.parse_time p.last ≡ some t

    record Counted (last : Option Instant) (n : ℕ) (ts : List Instant) (p' : Progress)
        : Type 0 where
      last' : Option Instant
      keeps : Keeps last' p'
      counts :
          (more : List Instant)
          → p'.uptime + greedy wait last' more ≡ n + greedy wait last (ts ++ more)

    -- The loop fails as the reading does, or counts what was read.
    abbrev Agrees : Option Instant → ℕ → Result Halt Times → Result Halt Progress → Type 0
    Agrees last n (err h) r = r ≡ err h
    Agrees last n (ok s) r = (p' : Progress) × (r ≡ ok p') × (p'.meta ≡ s.0) × Counted last n s.1 p'

    Agrees-bind :
        {A : Type 0} (last : Option Instant) (n : ℕ) (m : Result Halt A) (f : A → Result Halt Times)
        (g : A → Result Halt Progress)
        → ((a : A) → Agrees last n (f a) (g a))
        → Agrees last n (m >>= f) (m >>= g)
    Agrees-bind last n (ok a) f g h = h a
    Agrees-bind last n (err e) f g h = refl

    -- Nothing was read.
    unchanged :
        (last : Option Instant) (p : Progress)
        → Keeps last p
        → Agrees last p.uptime (ok (p.meta, [])) (ok p)
    unchanged last p k = (p, refl, refl, record { last' = last; keeps = k; counts = λ more. refl })

    taken :
        (last : Option Instant) (p : Progress) (t : Instant)
        → is_spaced wait last t ≡ true
        → lib.parse_time p.meta.created_at ≡ some t
        → Counted last p.uptime
            (t ∷ [])
            (record p { uptime = p.uptime + 1; last = p.meta.created_at })
    unfolding greedy
    taken last p t spaced e = record {
      last' = some t;
      keeps = e;
      counts = λ more. rw (spaced, greedy) (omega arith);
    }

    skipped :
        (last : Option Instant) (p : Progress) (t : Instant)
        → is_spaced wait last t ≡ false
        → Keeps last p
        → Counted last p.uptime (t ∷ []) p
    unfolding greedy
    skipped last p t close k = record {
      last' = last;
      keeps = k;
      counts = λ more. rw (close, greedy) refl;
    }

    kept_text : (l : Instant) (p : Progress) → Keeps (some l) p → is_empty p.last ≡ false
    kept_text l p k = elim (Bool-cases (is_empty p.last)) [
      | inl bare ↦
          absurd
            (some≢none (sym k ∙ ap lib.parse_time (is_empty→eq p.last bare) ∙ empty_is_no_time))
      | inr text ↦ text
    ]
      where
        some≢none : ¬ (Path (Option Instant) (some l) none)
        some≢none h = cc

        is_empty→eq : (b : Bytes) → is_empty b ≡ true → b ≡ []
        is_empty→eq [] h = refl
        is_empty→eq (x ∷ b) h = cc

    count_value :
        (last : Option Instant) (p : Progress) (t : Instant)
        → Keeps last p
        → lib.parse_time p.meta.created_at ≡ some t
        → count_submission lib ext config identity wait p
          ≡ ok (
              if is_spaced wait last t
              then record p { uptime = p.uptime + 1; last = p.meta.created_at }
              else p)
    unfolding count_submission
    count_value none p t k e = rw (e, count_submission) (simp (ap is_empty k))
    count_value (some l) p t k e = rw (e, count_submission) (simp (kept_text l p k, k))

    count_bad :
        (p : Progress)
        → lib.parse_time p.meta.created_at ≡ none
        → count_submission lib ext config identity wait p ≡ err fatal
    unfolding count_submission
    count_bad p bad = rw (bad, count_submission) refl

    count-Agrees :
        (last : Option Instant) (p : Progress)
        → Keeps last p
        → Agrees last p.uptime
            (time_if lib ext config identity matches p.meta true)
            (count_submission lib ext config identity wait p)
    count-Agrees last p k = elim (Option-cases (lib.parse_time p.meta.created_at)) [
      | inl bad ↦ rw bad (count_bad p bad)
      | inr (t, e) ↦ rw e (elim (Bool-cases (is_spaced wait last t)) [
        | inl far ↦ (_, count_value last p t k e ∙ simp far, refl, taken last p t far e)
        | inr close ↦ (_, count_value last p t k e ∙ simp close, refl, skipped last p t close k)
      ])
    ]

    visit-Agrees :
        (last : Option Instant) (obj : Object) (p : Progress)
        → Keeps last p
        → Agrees last p.uptime
            (time_of lib ext config identity matches obj p.meta)
            (visit lib ext config identity matches wait obj p)
    unfolding visit
    visit-Agrees last obj p k =
        Agrees-bind last p.uptime (read_object lib ext config identity matches obj p.meta)
          (time_if_read lib ext config identity matches p.meta) _
          (λ read. elim (Option-cases read) [
            | inl e ↦ rw e (unchanged last p k)
            | inr (m, e) ↦ rw e (
                Agrees-bind last p.uptime (matches_identity lib ext config identity m)
                  (time_if lib ext config identity matches m) _
                  (λ same. elim (Bool-cases same) [
                    | inl e ↦
                        rw e (count-Agrees last (record p { meta = m }) (keeps_meta last p m k))
                    | inr e ↦ rw e (unchanged last (record p { meta = m }) (keeps_meta last p m k))
                  ]))
          ])
      where
        keeps_meta :
            (last : Option Instant) (p : Progress) (m : MetaToBeSaved)
            → Keeps last p
            → Keeps last (record p { meta = m })
        keeps_meta none p m k = k
        keeps_meta (some t) p m k = k

    Agrees-then :
        (last : Option Instant) (n : ℕ) (s : Result Halt Times)
        (next : MetaToBeSaved → Result Halt Times) (r : Result Halt Progress)
        (go : Progress → Result Halt Progress)
        → Agrees last n s r
        → ((last' : Option Instant) (p' : Progress)
            → Keeps last' p'
            → Agrees last' p'.uptime (next p'.meta) (go p'))
        → Agrees last n (and_then s next) (r >>= go)
    Agrees-then last n (err h) next r go a b = rw a refl
    Agrees-then last n (ok (m, ts)) next r go (p', e, same, c) b = rw e (
        follow (next m) (go p') (
          subst (λ (m : MetaToBeSaved). Agrees c.last' p'.uptime (next m) (go p')) same
            (b c.last' p' c.keeps)))
      where
        follow :
            (s' : Result Halt Times) (r' : Result Halt Progress)
            → Agrees c.last' p'.uptime s' r'
            → Agrees last n (s' >>= λ y. ok (y.0, ts ++ y.1)) r'
        follow (err h) r' a' = a'
        follow (ok (m', ts')) r' (p'', e', same', c') = (
          p'',
          e',
          same',
          record {
            last' = c'.last';
            keeps = c'.keeps;
            counts = λ more.
                rw (append_assoc ts ts' more)
                  (omega (arith, c'.counts more, c.counts (ts' ++ more)));
          },
        )

    page-Agrees :
        (last : Option Instant) (objs : List Object) (p : Progress)
        → Keeps last p
        → Agrees last p.uptime
            (page_times lib ext config identity matches objs p.meta)
            (visit_page lib ext config identity matches wait objs p)
    unfolding visit_page
    page-Agrees last [] p k = unchanged last p k
    page-Agrees last (obj ∷ objs) p k =
        Agrees-then last p.uptime (time_of lib ext config identity matches obj p.meta)
          (page_times lib ext config identity matches objs)
          (visit lib ext config identity matches wait obj p)
          (visit_page lib ext config identity matches wait objs) (visit-Agrees last obj p k)
          (λ last' p' k'. page-Agrees last' objs p' k')

    pages-Agrees :
        (last : Option Instant) (pages : Listing) (p : Progress)
        → Keeps last p
        → Agrees last p.uptime
            (times lib ext config identity matches pages p.meta)
            (visit_pages lib ext config identity matches wait pages p)
    unfolding visit_pages
    pages-Agrees last [] p k = unchanged last p k
    pages-Agrees last (none ∷ pages) p k = refl
    pages-Agrees last (some objs ∷ pages) p k =
        Agrees-then last p.uptime (page_times lib ext config identity matches objs p.meta)
          (times lib ext config identity matches pages)
          (visit_page lib ext config identity matches wait objs p)
          (visit_pages lib ext config identity matches wait pages) (page-Agrees last objs p k)
          (λ last' p' k'. pages-Agrees last' pages p' k')

-- The run of the loop fails as the reading of the times does, or has a count with the property.
abbrev pub CountIs : (List Instant → ℕ → Type 0) → Result Halt Times → Result Halt Progress → Type 0
CountIs P (err h) r = r ≡ err h
CountIs P (ok s) r = (p : Progress) × (r ≡ ok p) × (p.meta ≡ s.0) × P s.1 p.uptime

module _ (lib : Libraries) (ext : Externals) (config : Settings) (identity : Identity)
    (matches : Bytes → Bool) where
  -- The loop of GetUptime fails exactly as reading the creation times of the identity's
  -- submissions of the period does, and otherwise its count is the number of those times that are
  -- taken when each time more than the wait after the last one taken is taken. RFC 3339 does not
  -- read the empty text as a time.
  pub visit_pages-greedy :
      (wait : Duration) (pages : Listing) (empty : MetaToBeSaved)
      → lib.parse_time [] ≡ none
      → CountIs
          (λ ts n. n ≡ greedy wait none ts)
          (times lib ext config identity matches pages empty)
          (visit_pages lib ext config identity matches wait pages (start_of empty))
  unfolding greedy
  visit_pages-greedy wait pages empty no_time =
      finish (times lib ext config identity matches pages empty) _
        (pages-Agrees lib ext config identity matches wait no_time none pages (start_of empty) refl)
    where
      finish :
          (s : Result Halt Times) (r : Result Halt Progress)
          → Agrees lib ext config identity matches wait no_time none 0 s r
          → CountIs (λ ts n. n ≡ greedy wait none ts) s r
      finish (err h) r a = a
      finish (ok s) r (p, e, same, c) =
          (p, e, same, (omega (arith, c.counts [], ap (greedy wait none) (append-nil s.1))))
