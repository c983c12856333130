-- ===== src/Analyzer/Options/Usable.antt =====
-- src/itn_uptime_analyzer/app_config.go: what LoadEnv guarantees of the analyzer's configuration.
use uptime_service_backend.Base.{
  ◌≡◌, refl, sym, ◌∙◌, Bool, true, false, ◌||◌, Option, none, some, inl, inr, Bool-cases,
  Option-cases,
}
use uptime_service_backend.Base.Text.{Bytes, lit, is_empty, equal}
use uptime_service_backend.Base.Dict.{Dict}
use uptime_service_backend.Base.Result.{
  Result, ok, ◌>>=◌, or_fail, AllOk, AllOk-bind, AllOk-bind_after,
}
use uptime_service_backend.Clock.{Instant, Duration}
use uptime_service_backend.Config.Env.{getenv}
use uptime_service_backend.Analyzer.Period.{PeriodConfig, get_period_config}
use uptime_service_backend.Analyzer.Options.{
  AppConfig, Fatal, bad_config, Decoded, Loaders, get_env_parsed, bool_option, string_option,
  network_name_option, aws_region_option, aws_account_id_option, ignore_ips_option, std_out_option,
  local_output_option, s3_output_option, period_option, parse_duration, set_period, options,
  update_all, load_env,
}

abbrev IsGiven : Bytes → Type 0
IsGiven v = is_empty v ≡ false

-- An update sets a value with a property.
abbrev Sets :
    {A : Type 0} → (A → Type 0) → (A → AppConfig → AppConfig) → AppConfig → AppConfig → Type 0
Sets {A} Q set c c' = (v : A) × Q v × (c' ≡ set v c)

module _ (env : Dict Bytes) (c : AppConfig) where
  required-Sets :
      (variable : Bytes) (set : Bytes → AppConfig → AppConfig)
      → AllOk (Sets IsGiven set c) ((string_option variable none set).update_from_env env c)
  unfolding string_option
  required-Sets variable set = elim (Bool-cases (is_empty (getenv env variable))) [
    | inl e ↦ rw (e, string_option) tt
    | inr e ↦ rw (e, string_option) (getenv env variable, e, refl)
  ]

  optional-Sets :
      (variable default : Bytes) (set : Bytes → AppConfig → AppConfig)
      → AllOk
          (Sets (λ _. Unit {0}) set c)
          ((string_option variable (some default) set).update_from_env env c)
  unfolding string_option
  optional-Sets variable default set = elim (Bool-cases (is_empty (getenv env variable))) [
    | inl e ↦ rw (e, string_option) (default, tt, refl)
    | inr e ↦ rw (e, string_option) (getenv env variable, tt, refl)
  ]

  bool_option-Sets :
      (variable : Bytes) (set : Bool → AppConfig → AppConfig)
      → AllOk (Sets (λ _. Unit {0}) set c) ((bool_option variable set).update_from_env env c)
  unfolding bool_option
  bool_option-Sets variable set =
      elim (Bool-cases (is_empty (getenv env variable) || equal (getenv env variable) (lit "0"))) [
        | inl e ↦ rw (e, bool_option) (false, tt, refl)
        | inr e ↦ elim (Bool-cases (equal (getenv env variable) (lit "1"))) [
          | inl e' ↦ rw (e, bool_option) (rw e' (true, tt, refl))
          | inr e' ↦ rw (e, bool_option) (rw e' tt)
        ]
      ]

  -- Both the bucket and the key are given.
  s3_output-Sets :
      AllOk
        (Sets
          (λ (v : Bytes × Bytes). IsGiven v.0 × IsGiven v.1)
          (λ v c. record c { output = record c.output { s3_bucket = v.0; s3_key = v.1 } })
          c)
        (s3_output_option.update_from_env env c)
  unfolding s3_output_option
  s3_output-Sets =
      let bucket = getenv env (lit "CONFIG_S3_BUCKET") in
      let key = getenv env (lit "CONFIG_S3_KEY") in
      elim (Bool-cases (is_empty bucket)) [
        | inl e ↦ rw (e, s3_output_option) tt
        | inr e ↦ elim (Bool-cases (is_empty key)) [
          | inl e' ↦ rw (e, s3_output_option) (rw e' tt)
          | inr e' ↦ rw (e, s3_output_option) (rw e' ((bucket, key), (e, e'), refl))
        ]
      ]

module _ (lib : Loaders) (now : Instant) where
  -- The period is one that GetPeriodConfig chooses.
  abbrev pub IsChosen : PeriodConfig → Type 0
  IsChosen p =
      (s : Option Instant) × (e : Option Instant) × (i : Option Duration) × (get_period_config s e i
          now
        ≡ some p)

  abbrev with_period : PeriodConfig → AppConfig → AppConfig
  with_period p c = record c { period = p }

  set_period-Sets :
      (c : AppConfig) (s e : Option Instant) (i : Option Duration)
      → AllOk (Sets IsChosen with_period c) (set_period lib now c (get_period_config s e i now))
  set_period-Sets c s e i = elim (Option-cases (get_period_config s e i now)) [
    | inl bad ↦ rw bad tt
    | inr (p, found) ↦ rw found (p, (s, e, i, found), refl)
  ]

  period-Sets :
      (env : Dict Bytes) (c : AppConfig)
      → AllOk (Sets IsChosen with_period c) ((period_option lib now).update_from_env env c)
  unfolding period_option
  period-Sets env c =
      AllOk-bind (Sets IsChosen with_period c)
        (get_env_parsed env lib.parse_time (lit "CONFIG_PERIOD_START")) _
        λ s.
          AllOk-bind (Sets IsChosen with_period c)
            (get_env_parsed env lib.parse_time (lit "CONFIG_PERIOD_END")) _
            λ e.
              AllOk-bind (Sets IsChosen with_period c)
                (get_env_parsed env (parse_duration lib now) (lit "CONFIG_PERIOD_INTERVAL")) _
                λ i. set_period-Sets c s e i

  period_json-Sets :
      (decoded : Decoded) (c : AppConfig)
      → AllOk (Sets IsChosen with_period c) ((period_option lib now).update_json decoded c)
  unfolding period_option
  period_json-Sets decoded c = set_period-Sets c _ _ _

  -- The bucket is given if the key is, and the other way round; the period is chosen.
  pub record IsUsable (c : AppConfig) : Type 0 where
    pub both : is_empty c.output.s3_bucket ≡ is_empty c.output.s3_key
    pub chosen : IsChosen c.period

  -- From the environment the values without which the analyzer cannot run are given as well.
  pub record IsFull (c : AppConfig) : Type 0 where
    pub usable : IsUsable c
    pub named : IsGiven c.network_name
    pub region : IsGiven c.aws.region
    pub account : IsGiven c.aws.account_id
    pub bucket : IsGiven c.output.s3_bucket

  env-IsFull :
      (env : Dict Bytes) (c : AppConfig)
      → AllOk IsFull (update_all lib now (λ o. o.update_from_env env) (options lib now) c)
  unfolding options network_name_option aws_region_option aws_account_id_option ignore_ips_option
      std_out_option local_output_option
  env-IsFull env c0 =
      AllOk-bind_after IsFull (network_name_option.update_from_env env c0) _
        (required-Sets env c0 _ _)
        λ c1 (name, named, e1).
          AllOk-bind_after IsFull (aws_region_option.update_from_env env c1) _
            (required-Sets env c1 _ _)
            λ c2 (region, located, e2).
              AllOk-bind_after IsFull (aws_account_id_option.update_from_env env c2) _
                (required-Sets env c2 _ _)
                λ c3 (account, owned, e3).
                  AllOk-bind_after IsFull (ignore_ips_option.update_from_env env c3) _
                    (bool_option-Sets env c3 _ _)
                    λ c4 (ips, _, e4).
                      AllOk-bind_after IsFull (std_out_option.update_from_env env c4) _
                        (bool_option-Sets env c4 _ _)
                        λ c5 (out, _, e5).
                          AllOk-bind_after IsFull (local_output_option.update_from_env env c5) _
                            (optional-Sets env c5 _ _ _)
                            λ c6 (path, _, e6).
                              AllOk-bind_after IsFull (s3_output_option.update_from_env env c6) _
                                (s3_output-Sets env c6)
                                λ c7 (s3, (bucket, key), e7).
                                  AllOk-bind_after IsFull
                                    ((period_option lib now).update_from_env env c7) _
                                    (period-Sets env c7)
                                    λ c8 (p, chosen, e8).
                                      rw (e8, e7, e6, e5, e4, e3, e2, e1)
                                        (record {
                                          usable = record {
                                            both = bucket ∙ sym key;
                                            chosen = chosen;
                                          };
                                          named = named;
                                          region = located;
                                          account = owned;
                                          bucket = bucket;
                                        })

  s3_output-agrees :
      (decoded : Decoded) (c : AppConfig)
      → AllOk
          (λ c'. (c' ≡ c) × (is_empty c.output.s3_bucket ≡ is_empty c.output.s3_key))
          (s3_output_option.update_json decoded c)
  unfolding s3_output_option
  s3_output-agrees decoded c = elim (Bool-cases (is_empty c.output.s3_bucket)) [
    | inl e ↦ elim (Bool-cases (is_empty c.output.s3_key)) [
      | inl e' ↦ simp (e, e') (refl, refl)
      | inr e' ↦ simp (e, e') tt
    ]
    | inr e ↦ elim (Bool-cases (is_empty c.output.s3_key)) [
      | inl e' ↦ simp (e, e') tt
      | inr e' ↦ simp (e, e') (refl, refl)
    ]
  ]

  json-IsUsable :
      (decoded : Decoded) (c : AppConfig)
      → AllOk IsUsable (update_all lib now (λ o. o.update_json decoded) (options lib now) c)
  unfolding options network_name_option aws_region_option aws_account_id_option ignore_ips_option
      std_out_option local_output_option string_option bool_option
  json-IsUsable decoded c =
      AllOk-bind_after IsUsable (s3_output_option.update_json decoded c) _
        (s3_output-agrees decoded c)
        λ c1 (same, both).
          AllOk-bind_after IsUsable ((period_option lib now).update_json decoded c1) _
            (period_json-Sets decoded c1)
            λ c2 (p, chosen, e2). rw (e2, same) (record { both = both; chosen = chosen })

  -- What holds of a configuration, by whether it was read from the environment.
  abbrev pub Loaded : Bool → AppConfig → Type 0
  Loaded true c = IsFull c
  Loaded false c = IsUsable c

  credentials_after :
      (from_env : Bool) (env : Dict Bytes) (m : Result Fatal (Dict Bytes))
      (read : Result Fatal AppConfig)
      → AllOk (Loaded from_env) read
      → AllOk
          (λ (r : AppConfig × Dict Bytes). Loaded from_env r.0)
          (read >>= λ config. m >>= λ env'. ok (config, env'))
  credentials_after from_env env m read p =
      AllOk-bind_after (λ (r : AppConfig × Dict Bytes). Loaded from_env r.0) read _ p
        λ c q. AllOk-bind (λ (r : AppConfig × Dict Bytes). Loaded from_env r.0) m _ λ env'. q

  -- A configuration that LoadEnv returns has a period that GetPeriodConfig chose, and an S3 bucket
  -- exactly if it has an S3 key; and if it was read from the environment, with no CONFIG_FILE, it
  -- has both, a network name, a region and an account.
  pub load_env-Loaded :
      (empty : AppConfig) (env : Dict Bytes)
      → AllOk
          (λ (r : AppConfig × Dict Bytes). Loaded (is_empty (getenv env (lit "CONFIG_FILE"))) r.0)
          (load_env lib now empty env)
  unfolding load_env
  load_env-Loaded empty env = elim (Bool-cases (is_empty (getenv env (lit "CONFIG_FILE")))) [
    | inl none_given ↦
        rw (none_given, load_env)
          (credentials_after true env _
            (update_all lib now (λ o. o.update_from_env env) (options lib now) empty)
            (env-IsFull env empty))
    | inr given ↦
        rw (given, load_env)
          (credentials_after false env _ _ (
            AllOk-bind IsUsable
              (or_fail (lib.decode_config (getenv env (lit "CONFIG_FILE"))) bad_config) _
              λ decoded. json-IsUsable decoded decoded.config))
  ]
