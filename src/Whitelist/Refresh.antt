-- ===== src/Whitelist/Refresh.antt =====
-- What a round of the refresh loop does to the registered keys.
use uptime_service_backend.Base.{ℕ, zero, suc, ◌<◌, ◌≡◌, refl, ap, ◌∙◌, Option, none, some, List}
use uptime_service_backend.Base.Int.{ℤ, pos, pos_part, pos_part-pos}
use uptime_service_backend.Base.Result.{Result, ok, err}
use uptime_service_backend.Externals.{Externals}
use uptime_service_backend.Backoff.{Error, RetryError, Operation, initial_backoff}
use uptime_service_backend.Backoff.Outcome.{
  after_calls, Fails, last_error, exponential_backoff-succeeds, exponential_backoff-Fails,
}
use uptime_service_backend.Whitelist.{
  Whitelist, WhitelistMVar, Cell, replace, process_rows, fetch, retrieved, retrieve_whitelist,
  refresh,
}

after_calls-suc :
    {W : Type 0} (op : Operation W) (n : ℕ) (w : W)
    → after_calls op (suc n) w ≡ (op (after_calls op n w)).1
after_calls-suc op zero w = refl
after_calls-suc op (suc n) w = after_calls-suc op n (op w).1

module _ (ext : Externals) {S : Type 0} (service : S → Result Error (List (List Cell)) × S) where
  -- The world after `n` requests to the service.
  abbrev pub after_requests : ℕ → S → S
  after_requests zero s = s
  after_requests (suc n) s = after_requests n (service s).1

  -- The first `n` requests fail.
  abbrev pub RequestsFail : ℕ → S → Type 0
  RequestsFail zero s = Unit
  RequestsFail (suc n) s = ((e : Error) × ((service s).0 ≡ err e)) × RequestsFail n (service s).1

  after_requests-suc : (n : ℕ) (s : S) → after_requests (suc n) s ≡ (service (after_requests n s)).1
  after_requests-suc zero s = refl
  after_requests-suc (suc n) s = after_requests-suc n (service s).1

  fetch-ok :
      (s : S) (resp : Option (List (List Cell))) (rows : List (List Cell))
      → (service s).0 ≡ ok rows
      → ((fetch ext service (s, resp)).0 ≡ none)
        × ((fetch ext service (s, resp)).1 ≡ ((service s).1, some rows))
  unfolding fetch
  fetch-ok s resp rows e = (rw (e, fetch), rw (e, fetch))

  -- The retried closure sees the service's failures, and holds no response after them.
  fetch-Fails :
      (n : ℕ) (s : S)
      → RequestsFail n s
      → Fails (fetch ext service) n (s, none)
        × (after_calls (fetch ext service) n (s, none) ≡ (after_requests n s, none))
  unfolding fetch
  fetch-Fails zero s f = (tt, refl)
  fetch-Fails (suc n) s ((e, failed), f) =
      rw (failed, fetch)
        ((λ h. cc, (fetch-Fails n (service s).1 f).0), (fetch-Fails n (service s).1 f).1)

  retrieve_whitelist-fails :
      (retries : ℤ) (n : ℕ) (s : S)
      → pos_part retries ≡ n
      → RequestsFail n s
      → (e : RetryError) × (retrieve_whitelist ext service retries s
          ≡ (some (err e), after_requests n s))
  unfolding retrieve_whitelist retrieved
  retrieve_whitelist-fails retries n s size f =
      let (fails, world) = fetch-Fails n s f in
      let ended =
        exponential_backoff-Fails (fetch ext service) retries initial_backoff (s, none)
          (rw size fails) in
      (
        record {
          retries = retries;
          last = last_error (fetch ext service) (pos_part retries) none (s, none);
        },
        ap (retrieved ext service) ended ∙ rw (size, world),
      )

  retrieve_whitelist-succeeds :
      (retries : ℤ) (k : ℕ) (s : S) (rows : List (List Cell))
      → k < pos_part retries
      → RequestsFail k s
      → (service (after_requests k s)).0 ≡ ok rows
      → retrieve_whitelist ext service retries s
        ≡ (some (ok (process_rows ext rows)), after_requests (suc k) s)
  unfolding retrieve_whitelist retrieved
  retrieve_whitelist-succeeds retries k s rows b f e =
      let (fails, world) = fetch-Fails k s f in
      let (found, after_found) = fetch-ok (after_requests k s) none rows e in
      let ended =
        exponential_backoff-succeeds (fetch ext service) retries k initial_backoff (s, none) b fails
          (rw world found) in
      let last : after_calls (fetch ext service) (suc k) (s, none)
          ≡ ((service (after_requests k s)).1, some rows) =
        after_calls-suc (fetch ext service) k (s, none) ∙ rw world after_found in
      ap (retrieved ext service) ended ∙ rw (last, after_requests-suc k s)

  -- If all ten requests of a round fail the registered keys stay as they were.
  pub refresh-fails :
      (mvar : WhitelistMVar) (s : S)
      → RequestsFail 10 s
      → refresh ext service mvar s ≡ (mvar, after_requests 10 s)
  unfolding refresh
  refresh-fails mvar s f =
      let (e, failed) = retrieve_whitelist-fails (pos 10) 10 s (pos_part-pos 10) f in rw failed

  -- If a request of a round succeeds, after fewer than ten failures, the registered keys become
  -- those of its rows, and nothing of the old ones stays.
  pub refresh-succeeds :
      (mvar : WhitelistMVar) (s : S) (k : ℕ) (rows : List (List Cell))
      → k < 10
      → RequestsFail k s
      → (service (after_requests k s)).0 ≡ ok rows
      → refresh ext service mvar s ≡ (some (process_rows ext rows), after_requests (suc k) s)
  unfolding refresh replace
  refresh-succeeds mvar s k rows b f e =
      rw (retrieve_whitelist-succeeds (pos 10) k s rows (rw pos_part-pos b) f e)

  -- Once there are registered keys, a round never takes them away altogether.
  pub refresh-set :
      (mvar : WhitelistMVar) (s : S) (wl : Whitelist)
      → mvar ≡ some wl
      → (wl' : Whitelist) × ((refresh ext service mvar s).0 ≡ some wl')
  unfolding refresh replace
  refresh-set mvar s wl set = kept (retrieve_whitelist ext service (pos 10) s).0
    where
      kept :
          (r : Option (Result RetryError Whitelist))
          → (wl' : Whitelist) × ((elim r [
            | none ↦ mvar
            | some (err _) ↦ mvar
            | some (ok wl) ↦ some wl
          ])
              ≡ some wl')
      kept none = (wl, set)
      kept (some (err e)) = (wl, set)
      kept (some (ok found)) = (found, refl)
