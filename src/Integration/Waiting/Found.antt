-- ===== src/Integration/Waiting/Found.antt =====
-- src/integration_tests/aws_helper.go: when waiting for the bucket ends, and that what the backend
-- saves ends it.
use uptime_service_backend.Base.{
  ℕ, ◌-◌, ◌≡◌, ◌↔◌, refl, sym, ap, ◌∙◌, Bool, true, false, ◌&&◌, ◌||◌, Option, none, some, List, [],
  ◌∷◌, ◌++◌, map, ltb, length, get_or, All, if◌then◌else◌, inl, inr, Bool-cases, arith, take, drop,
  take-append-drop,
}
use mathlib.Core.Path.{subst, fun_ext}
use uptime_service_backend.Base.Result.{Result, ok, err}
use uptime_service_backend.Base.Text.{Bytes, lit, equal, equal→eq, has_suffix}
use uptime_service_backend.Integration.{Event, timeout, tick, WaitError, failed, poll}
use uptime_service_backend.Integration.Waiting.{
  any, is_block_key, is_submission_key, check_keys, bucket_has,
  wait_until_s3_bucket_has_blocks_and_submissions,
}

-- The events up to the first tick at which the check holds, all of them ticks at which it does not.
abbrev pub EndsWell : {A : Type 0} → (A → Result WaitError Bool) → List (Event A) → Type 0
EndsWell {A} check events =
    (before : List A) × (a : A) × (after : List (Event A)) × (events
      ≡ map tick before ++ tick a ∷ after)
    × All (λ b. check b ≡ ok false) before
    × (check a ≡ ok true)

module _ {A : Type 0} (check : A → Result WaitError Bool) where
  -- One tick, by what the check answers.
  step-EndsWell :
      (a : A) (events : List (Event A)) (r : Result WaitError Bool)
      → check a ≡ r
      → poll check (tick a ∷ events) ≡ some (ok tt)
      → (poll check events ≡ some (ok tt) → EndsWell check events)
      → EndsWell check (tick a ∷ events)
  unfolding poll
  step-EndsWell a events (ok true) e h rest = ([], a, events, refl, tt, e)
  step-EndsWell a events (ok false) e h rest =
      let (before, b, after, split, waits, found) = rest (rw (e, poll) at h) in
      (a ∷ before, b, after, ap (◌∷◌ (tick a)) split, (e, waits), found)
  step-EndsWell a events (err e') e h rest = let stops = rw (e, poll) at h in cc

  poll-EndsWell :
      (events : List (Event A)) → poll check events ≡ some (ok tt) → EndsWell check events
  unfolding poll
  poll-EndsWell [] h = cc
  poll-EndsWell (timeout ∷ events) h = cc
  poll-EndsWell (tick a ∷ events) h = step-EndsWell a events (check a) refl h (poll-EndsWell events)

  EndsWell-poll :
      (before : List A) (a : A) (after : List (Event A))
      → All (λ b. check b ≡ ok false) before
      → check a ≡ ok true
      → poll check (map tick before ++ tick a ∷ after) ≡ some (ok tt)
  unfolding poll
  EndsWell-poll [] a after waits found = rw (found, poll) refl
  EndsWell-poll (b ∷ before) a after (e, waits) found =
      rw (e, poll) (EndsWell-poll before a after waits found)

  pub poll-EndsWell_iff :
      (events : List (Event A)) → (poll check events ≡ some (ok tt)) ↔ EndsWell check events
  poll-EndsWell_iff events = (
    poll-EndsWell events,
    λ (before, a, after, split, waits, found). rw split (EndsWell-poll before a after waits found),
  )

set_flag : (x rest flag : Bool) → (rest || (if x then true else flag)) ≡ ((x || rest) || flag)
set_flag x rest flag = ground arith

or_false : (b : Bool) → (b || false) ≡ b
or_false b = ground arith

check_keys-any :
    (p date : Bytes) (keys : List Bytes) (b s : Bool)
    → check_keys p date keys (b, s)
      ≡ (any (is_block_key p) keys || b, any (is_submission_key p date) keys || s)
unfolding check_keys
check_keys-any p date [] b s = refl
check_keys-any p date (key ∷ keys) b s =
    check_keys-any p date keys (if is_block_key p key then true else b)
      (if is_submission_key p date key then true else s)
    ∙ rw
        (
          set_flag (is_block_key p key) (any (is_block_key p) keys) b,
          set_flag (is_submission_key p date key) (any (is_submission_key p date) keys) s,
        )
        refl

-- The last byte of a text.
abbrev last : Bytes → Bytes → Bytes
last d [] = d
last d (x ∷ s) = last (x ∷ []) s

last-append : (s t d : Bytes) (c : ℕ) → last d (s ++ c ∷ t) ≡ last [] (c ∷ t)
last-append [] t d c = refl
last-append (x ∷ s) t d c = last-append s t (x ∷ []) c

has_suffix-front :
    (s suffix : Bytes)
    → has_suffix s suffix ≡ true
    → s ≡ take (length s - length suffix) s ++ suffix
unfolding has_suffix
has_suffix-front s suffix h =
    let same : equal (drop (length s - length suffix) s) suffix ≡ true = ground arith in
    sym (take-append-drop (length s - length suffix) s)
    ∙ ap (λ (t : Bytes). take (length s - length suffix) s ++ t) (equal→eq _ _ same)

-- No text ends in both ways.
suffixes-differ :
    (s : Bytes) → has_suffix s (lit ".dat") ≡ true → has_suffix s (lit ".json") ≡ true → ⊥
suffixes-differ s dat json =
    let front = has_suffix-front s (lit ".dat") dat in
    let front' = has_suffix-front s (lit ".json") json in
    let ends : Path Bytes (lit "t") (lit "n") =
      sym (last-append (take (length s - 4) s) (lit "dat") [] b'.')
      ∙ ap (last []) (sym front ∙ front')
      ∙ last-append (take (length s - 5) s) (lit "json") [] b'.' in
    let bytes : Path ℕ b't' b'n' = ap (λ (l : Bytes). get_or l 0 0) ends in absurd (omega arith)

-- The check as one condition on the listing.
abbrev pub bucket_has_both : Bytes → Bytes → Option (List Bytes) → Result WaitError Bool
bucket_has_both p date none = err failed
bucket_has_both p date (some keys) =
    ok (any (is_block_key p) keys && any (is_submission_key p date) keys)

module _ (p date : Bytes) where
  -- With at most one key there are not both.
  few-none :
      (keys : List Bytes)
      → ltb 1 (length keys) ≡ false
      → (any (is_block_key p) keys && any (is_submission_key p date) keys) ≡ false
  few-none [] h = refl
  few-none (key ∷ []) h = elim (Bool-cases (has_suffix key (lit ".dat"))) [
    | inl dat ↦ elim (Bool-cases (has_suffix key (lit ".json"))) [
      | inl json ↦ absurd (suffixes-differ key dat json)
      | inr json ↦ ground arith
    ]
    | inr dat ↦ ground arith
  ]
  few-none (key ∷ other ∷ keys) h = absurd (ground arith)

  bucket_has-any :
      (keys : List Bytes)
      → bucket_has p date (some keys)
        ≡ ok (any (is_block_key p) keys && any (is_submission_key p date) keys)
  unfolding bucket_has
  bucket_has-any keys = elim (Bool-cases (ltb 1 (length keys))) [
    | inl many ↦
        rw (many, check_keys-any p date keys false false)
          (rw (or_false (any (is_block_key p) keys), or_false (any (is_submission_key p date) keys))
            refl)
    | inr few ↦ rw (few, few-none keys few) refl
  ]

  pub bucket_has-both :
      (objects : Option (List Bytes)) → bucket_has p date objects ≡ bucket_has_both p date objects
  unfolding bucket_has
  bucket_has-both none = refl
  bucket_has-both (some keys) = bucket_has-any keys

  -- Waiting for the bucket succeeds exactly if there is a tick, with no timeout and no failed
  -- listing before it, whose listing has a block's key and a submission's key of the date, and no
  -- listing before it has both; that more than one object is asked for changes nothing.
  pub wait_until_s3-EndsWell :
      (events : List (Event (Option (List Bytes))))
      → (wait_until_s3_bucket_has_blocks_and_submissions p date events ≡ some (ok tt))
        ↔ EndsWell (bucket_has_both p date) events
  unfolding wait_until_s3_bucket_has_blocks_and_submissions
  wait_until_s3-EndsWell events =
      subst (λ check. (poll (bucket_has p date) events ≡ some (ok tt)) ↔ EndsWell check events)
        (fun_ext (bucket_has-both)) (poll-EndsWell_iff (bucket_has p date) events)
