-- ===== src/Analyzer/Report/Loop.antt =====
-- src/cmd/itn_uptime_analyzer/main_itn_uptime_analyzer.go: what the loop over the
-- identities puts out.
use uptime_service_backend.Base.{
  ℕ, suc, ◌+◌, ◌≡◌, refl, sym, ap, ◌∙◌, none, some, List, [], ◌∷◌, ◌++◌, if◌then◌else◌, length,
  arith, inl, inr, Bool-cases,
}
use uptime_service_backend.Base.Result.{ok, err}
use uptime_service_backend.Base.Int.{pos}
use uptime_service_backend.Base.Text.{Bytes}
use uptime_service_backend.Externals.{Externals}
use uptime_service_backend.Request.{MetaToBeSaved}
use uptime_service_backend.Analyzer.{Halt, Libraries}
use uptime_service_backend.Analyzer.Identity.{Identity, create_identities}
use uptime_service_backend.Analyzer.Uptime.{Floats, get_uptime}
use uptime_service_backend.Analyzer.Options.{AppConfig}
use uptime_service_backend.Analyzer.Report.{
  in_uptime, PeriodTexts, System, Outputs, settings_of, heading, line, output, after_loop, listing,
  report, measure,
}

append_assoc : (a b c : Bytes) → (a ++ b) ++ c ≡ a ++ (b ++ c)
append_assoc [] b c = refl
append_assoc (x ∷ a) b c = ap (◌∷◌ x) (append_assoc a b c)

append_nil : {A : Type 0} → (a : List A) → a ++ [] ≡ a
append_nil [] = refl
append_nil (x ∷ a) = ap (◌∷◌ x) (append_nil a)

plus_zero : (n : ℕ) → n + 0 ≡ n
plus_zero n = omega arith

plus_suc : (n k : ℕ) → n + suc k ≡ suc n + k
plus_suc n k = omega arith

-- The report's text: the heading, then a line for each measured identity.
abbrev pub lines : AppConfig → List Identity → Bytes
lines config [] = []
lines config (y ∷ ys) = line config y ++ lines config ys

abbrev pub text : AppConfig → PeriodTexts → List Identity → Bytes
text config texts ys = ((heading config texts).0 ++ (heading config texts).1) ++ lines config ys

-- A text that is in the file, and printed if that is asked for.
abbrev pub both : AppConfig → Bytes → Outputs
both config t = record { printed = if config.output.stdout then t else []; file = some t }

module _ (system : System) (lib : Libraries) (ext : Externals) {F : Type 0} (floats : Floats F)
    (empty : MetaToBeSaved) (config : AppConfig) (texts : PeriodTexts) where
  -- The uptimes of identities, of which the first is measured by the n-th listing.
  abbrev pub Measured : ℕ → List Identity → List Identity → Type 0
  Measured n [] [] = Unit
  Measured n (x ∷ xs) (y ∷ ys) =
      (get_uptime lib ext (settings_of config) x floats (pos 15) empty
          (listing system lib ext floats empty config texts n)
        ≡ ok y)
      × Measured (suc n) xs ys
  Measured n _ _ = ⊥

both-start : (config : AppConfig) → both config [] ≡ record { printed = []; file = some [] }
both-start config = elim (Bool-cases config.output.stdout) [ inl e ↦ rw e refl | inr e ↦ rw e refl ]

module _ (system : System) (appends : (c msg : Bytes) → system.write c msg ≡ c ++ msg) where
  output-both :
      (config : AppConfig) (msg t : Bytes)
      → output system config msg (both config t) ≡ both config (t ++ msg)
  unfolding output
  output-both config msg t = elim (Bool-cases config.output.stdout) [
    | inl e ↦ simp (e, appends t msg) refl
    | inr e ↦ simp (e, appends t msg) refl
  ]

  module _ (lib : Libraries) (ext : Externals) {F : Type 0} (floats : Floats F)
      (empty : MetaToBeSaved) (config : AppConfig) (texts : PeriodTexts) where
    report-Measured :
        (n : ℕ) (front rest ys : List Identity) (t : Bytes)
        → Measured system lib ext floats empty config texts n front ys
        → report system lib ext floats empty config texts n (front ++ rest) (both config t)
          ≡ report system lib ext floats empty config texts
              (n + length front)
              rest
              (both config (t ++ lines config ys))
    unfolding report
    report-Measured n [] rest [] t m = rw (append_nil t, plus_zero n) refl
    report-Measured n (x ∷ front) rest (y ∷ ys) t (e, m) =
        rw (e, report)
          (rw
            (
              output-both config (line config y) t,
              report-Measured (suc n) front rest ys (t ++ line config y) m,
              append_assoc t (line config y) (lines config ys),
              plus_suc n (length front),
            )
            refl)
    report-Measured n [] rest (y ∷ ys) t m = absurd m
    report-Measured n (x ∷ front) rest [] t m = absurd m

    pub report-all :
        (n : ℕ) (xs ys : List Identity) (t : Bytes)
        → Measured system lib ext floats empty config texts n xs ys
        → report system lib ext floats empty config texts n xs (both config t)
          ≡ (both config (t ++ lines config ys), none)
    unfolding report
    report-all n xs ys t m =
        sym (
          ap (λ l. report system lib ext floats empty config texts n l (both config t))
            (append_nil xs))
        ∙ report-Measured n xs [] ys t m

    pub report-stops :
        (n : ℕ) (front rest ys : List Identity) (t : Bytes)
        → Measured system lib ext floats empty config texts n front ys
        → (x : Identity) (h : Halt)
        → get_uptime lib ext
            (settings_of config)
            x
            floats
            (pos 15)
            empty
            (listing system lib ext floats empty config texts (n + length front))
          ≡ err h
        → report system lib ext floats empty config texts n (front ++ x ∷ rest) (both config t)
          ≡ (both config (t ++ lines config ys), some (in_uptime h))
    unfolding report
    report-stops n front rest ys t m x h stops =
        report-Measured n front (x ∷ rest) ys t m ∙ rw (stops, report) refl

    -- main once the output is a file, up to the loop.
    pub measure-identities :
        (xs : List Identity)
        → create_identities lib ext
            (settings_of config)
            empty
            (listing system lib ext floats empty config texts 0)
          ≡ ok xs
        → measure system lib ext floats empty config texts (some [])
          ≡ after_loop system config texts (
              report system lib ext floats empty config texts 1 xs
                (both config ((heading config texts).0 ++ (heading config texts).1)))
    unfolding measure
    measure-identities xs e =
        rw (e, measure)
          (rw
            (
              ← both-start config,
              output-both config (heading config texts).0 [],
              output-both config (heading config texts).1 (heading config texts).0,
            )
            refl)
