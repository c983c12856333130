-- ===== src/Submit/Quota/Fair.antt =====
-- A producer that keeps within the limit is served, whatever the others send.
use uptime_service_backend.Base.{
  ℕ, ◌+◌, ◌≤◌, ◌≡◌, ◌≢◌, refl, sym, ap, ◌∙◌, Bool, ◌&&◌, List, [], ◌∷◌, inl, inr, arith, Bool-cases,
  count, count-le, to_ℕ,
}
use uptime_service_backend.Base.Int.{ℤ, pos, ◌<ℤ◌, pos_part-pos, neg_part-pos}
use uptime_service_backend.Base.Text.{equal, equal_iff, equal→eq}
use uptime_service_backend.Base.Dict.{lookup}
use uptime_service_backend.Base.Panics.{Returns-inv}
use uptime_service_backend.Clock.{Instant, add}
use uptime_service_backend.Externals.{Externals}
use uptime_service_backend.Keys.{Pk}
use uptime_service_backend.Request.{SubmitRequest}
use uptime_service_backend.Request.Meta.{HasJsonSnark}
use uptime_service_backend.Limiter.{
  AttemptCounter, heap_of, IsValid, IsCapacity, new_attempt_counter, minus_one_hour,
}
use uptime_service_backend.Limiter.Evict.{is_recent}
use uptime_service_backend.Limiter.History.{Attempt, of_key_after}
use uptime_service_backend.Limiter.Record.{
  recent_attempts, Recorded, record_attempt_correct, new_attempt_counter-IsValid,
}
use uptime_service_backend.Paths.{ObjectsToSave}
use uptime_service_backend.Submit.{App, Served, respond, ok_response}
use uptime_service_backend.Submit.Admission.{IsAdmissible}
use uptime_service_backend.Submit.Serve.{Result-cases, serve_http-admissible}
use uptime_service_backend.Submit.Quota.{
  Call, app_at, admitted, serve, attempts, serve-err, serve-ok,
}

module _ (ext : Externals) (app : App) where
  -- The counter after a run of calls.
  pub counter_after : AttemptCounter → List Call → AttemptCounter
  counter_after c [] = c
  counter_after c (call ∷ calls) = counter_after (serve ext app c call).counter calls

  module _ (pk : Pk) where
    -- The attempts of the key at the instants of a predicate.
    abbrev of_key : (Instant → Bool) → Attempt → Bool
    of_key p a = equal a.0 pk && p a.1

    -- What a counter holds of the key.
    record Holds (max : ℤ) (n : (Instant → Bool) → ℕ) (c : AttemptCounter) : Type 0 where
      valid : IsValid c
      limit : c.max_attempt ≡ max
      held : (p : Instant → Bool) → count p (heap_of c pk) ≤ n p

    record_attempt-Holds :
        (max : ℤ) (n : (Instant → Bool) → ℕ) (c c' : AttemptCounter) (a : Attempt) (b : Bool)
        → Holds max n c
        → Recorded c a.0 a.1 (b, c')
        → Holds max (λ p. to_ℕ (of_key p a) + n p) c'
    record_attempt-Holds max n c c' a b h s = record {
      valid = s.valid;
      limit = s.limit ∙ h.limit;
      held = λ p. elim (Bool-cases (equal a.0 pk)) [
        | inl own ↦
            let same = equal→eq a.0 pk own in
            let now : count p (heap_of c' pk) ≡ count p (heap_of c' a.0) =
              ap (λ (k : Pk). count p (heap_of c' k)) (sym same) in
            let before : count p (heap_of c a.0) ≡ count p (heap_of c pk) =
              ap (λ (k : Pk). count p (heap_of c k)) same in
            let fewer =
              count-le (λ t. p t && is_recent a.1 t) p (heap_of c a.0)
                (λ t both. ground (arith, both)) in
            ground (arith, own, now, before, fewer, s.held p, h.held p)
        | inr other ↦
            let apart : pk ≢ a.0 = ground (arith, other, equal_iff a.0 pk) in
            let kept : count p (heap_of c' pk) ≡ count p (heap_of c pk) =
              ap (count p) (s.others pk apart) in
            omega (arith, kept, h.held p)
      ];
    }

    counter_after-Holds :
        (max : ℤ) (n : (Instant → Bool) → ℕ) (c : AttemptCounter) (calls : List Call)
        → Holds max n c
        → Holds max (λ p. count (of_key p) (attempts ext app calls) + n p) (counter_after c calls)
    unfolding counter_after attempts
    counter_after-Holds max n c [] h = record {
      valid = h.valid;
      limit = h.limit;
      held = λ p. omega (arith, h.held p);
    }
    counter_after-Holds max n c (call ∷ calls) h = elim (Result-cases (admitted ext app call)) [
      | inr (stop, e) ↦
          let (same, nothing) = serve-err ext app c call stop e in
          rw (same, e, attempts) (counter_after-Holds max n c calls h)
      | inl (req, e) ↦
          let ((b, c'), recorded, s) =
            Returns-inv (record_attempt_correct c req.submitter call.attempt_at h.valid) in
          let (next, unsaved) = serve-ok ext app c call req b c' e recorded in
          let rest =
            counter_after-Holds max (λ p. to_ℕ (of_key p (req.submitter, call.attempt_at)) + n p) c'
              calls (record_attempt-Holds max n c c' (req.submitter, call.attempt_at) b h s) in
          rw (next, e, attempts)
            (record {
              valid = rest.valid;
              limit = rest.limit;
              held = λ p. omega (arith, rest.held p);
            })
    ]

-- After any run of calls that starts with a new counter, whose limit `make` allows, an admissible request is saved and
-- answered 200, if its snark work is JSON and fewer attempts of its key than the limit were made
-- by the run less than an hour before, whatever other keys have sent.
pub serve-within_limit :
    (ext : Externals) (app : App) (max : ℤ) (calls : List Call) (call : Call) (req : SubmitRequest)
    → IsCapacity max
    → IsAdmissible ext (app_at app app.submit_counter call) call.http call.submitted_at req
    → HasJsonSnark ext req
    → pos (
        count
          (of_key_after req.submitter (add call.attempt_at minus_one_hour))
          (attempts ext app calls))
      <ℤ max
    → (objs : ObjectsToSave) × ((serve ext app
          (counter_after ext app (new_attempt_counter max) calls)
          call).saved
        ≡ objs ∷ [])
      × ((serve ext app (counter_after ext app (new_attempt_counter max) calls) call).outcome
          ≡ respond ok_response)
unfolding new_attempt_counter heap_of lookup
serve-within_limit ext app max calls call req b a json few =
    let c = counter_after ext app (new_attempt_counter max) calls in
    let start : Holds ext app req.submitter max (λ p. 0) (new_attempt_counter max) = record {
      valid = new_attempt_counter-IsValid max b;
      limit = refl;
      held = λ p. omega arith;
    } in
    let h =
      counter_after-Holds ext app req.submitter max (λ p. 0) (new_attempt_counter max) calls
        start in
    let recent = h.held (is_recent call.attempt_at) in
    let made =
      count (of_key_after req.submitter (add call.attempt_at minus_one_hour))
        (attempts ext app calls) in
    let remembered = recent_attempts c req.submitter call.attempt_at in
    elim (serve_http-admissible ext (app_at app c call) call.http call.submitted_at call.attempt_at
      req
      (record {
        given = a.given;
        fits = a.fits;
        arrived = a.arrived;
        decoded = a.decoded;
        complete = a.complete;
        registered = a.registered;
        present = a.present;
        signed = a.signed;
      })
      json h.valid) [
        | inl (free, objs, accepted) ↦ (
          objs,
          ap (λ (s : Served). s.saved) accepted.served,
          ap (λ (s : Served). s.outcome) accepted.served,
        )
        | inr (full, nothing, limited) ↦ absurd (
            ground (
              arith,
              few,
              full,
              recent,
              h.limit,
              pos_part-pos made,
              neg_part-pos made,
              pos_part-pos remembered,
              neg_part-pos remembered,
            ))
      ]
