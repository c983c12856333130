-- ===== src/Analyzer/Uptime/Greedy.antt =====
-- The specification of the count of src/itn_uptime_analyzer/uptime.go, on instants alone.
use uptime_service_backend.Base.{
  ℕ, suc, ◌≤◌, ◌≡◌, refl, ap, Bool, true, false, Option, none, some, List, [], ◌∷◌, arith, inl, inr,
  Bool-cases, length,
}
use uptime_service_backend.Base.Int.{◌≤ℤ◌}
use uptime_service_backend.Clock.{Instant, Duration, add, add_parts, after}

-- Whether an instant counts, after the last that did.
abbrev pub is_spaced : Duration → Option Instant → Instant → Bool
is_spaced wait none t = true
is_spaced wait (some last) t = after t (add last wait)

-- Each instant that is more than `wait` after the last one taken is taken.
unfoldable pub greedy : Duration → Option Instant → List Instant → ℕ
greedy wait last [] = 0
greedy wait last (t ∷ ts) = elim (is_spaced wait last t) [
  | true ↦ suc (greedy wait (some t) ts)
  | false ↦ greedy wait last ts
]

-- In the order of time, from `start` on.
abbrev pub IsOrdered : Instant → List Instant → Type 0
IsOrdered start [] = Unit
IsOrdered start (t ∷ ts) = (start ≤ℤ t) × IsOrdered t ts

-- The instants at the places of a list that are marked.
abbrev pub select : List Bool → List Instant → List Instant
select [] ts = []
select (b ∷ marks) [] = []
select (true ∷ marks) (t ∷ ts) = t ∷ select marks ts
select (false ∷ marks) (t ∷ ts) = select marks ts

-- Each instant is more than `wait` after the one before it.
abbrev pub IsSpaced : Duration → Option Instant → List Instant → Type 0
IsSpaced wait last [] = Unit
IsSpaced wait last (t ∷ ts) = (is_spaced wait last t ≡ true) × IsSpaced wait (some t) ts

-- A later first instant leaves a choice spaced.
IsSpaced-earlier :
    (wait : Duration) (a b : Instant) (ts : List Instant)
    → a ≤ℤ b
    → IsSpaced wait (some b) ts
    → IsSpaced wait (some a) ts
IsSpaced-earlier wait a b [] le s = tt
IsSpaced-earlier wait a b (t ∷ ts) le (first, rest) =
    (ground (arith, first, add_parts a wait, add_parts b wait), rest)

IsOrdered-earlier : (a b : Instant) (ts : List Instant) → a ≤ℤ b → IsOrdered b ts → IsOrdered a ts
IsOrdered-earlier a b [] le o = tt
IsOrdered-earlier a b (t ∷ ts) le (first, rest) = (omega (arith, first), rest)

-- A choice without its first instant, which comes after any instant before the list.
without_first :
    (wait : Duration) (last : Option Instant) (start : Instant) (marks : List Bool)
    (ts : List Instant)
    → IsOrdered start ts
    → IsSpaced wait last (select marks ts)
    → (marks' : List Bool) × IsSpaced wait (some start) (select marks' ts)
      × (length (select marks ts) ≤ suc (length (select marks' ts)))
without_first wait last start [] ts o s = ([], tt, omega arith)
without_first wait last start (b ∷ marks) [] o s = ([], tt, omega arith)
without_first wait last start (true ∷ marks) (t ∷ ts) o s =
    (false ∷ marks, IsSpaced-earlier wait start t (select marks ts) o.0 s.1, omega arith)
without_first wait last start (false ∷ marks) (t ∷ ts) o s =
    let (marks', spaced, size) =
      without_first wait last start marks ts (IsOrdered-earlier start t ts o.0 o.1) s in
    (false ∷ marks', spaced, size)

-- In a list in the order of time no spaced choice has more instants than are taken greedily.
pub greedy_optimal :
    (wait : Duration) (last : Option Instant) (start : Instant) (marks : List Bool)
    (ts : List Instant)
    → IsOrdered start ts
    → IsSpaced wait last (select marks ts)
    → length (select marks ts) ≤ greedy wait last ts
unfolding greedy
greedy_optimal wait last start [] ts o s = omega arith
greedy_optimal wait last start (b ∷ marks) [] o s = omega arith
greedy_optimal wait last start (true ∷ marks) (t ∷ ts) o s =
    rw (s.0, greedy) (omega (arith, greedy_optimal wait (some t) t marks ts o.1 s.1))
greedy_optimal wait last start (false ∷ marks) (t ∷ ts) o s =
    elim (Bool-cases (is_spaced wait last t)) [
      | inl takes ↦
          let (marks', spaced, size) = without_first wait last t marks ts o.1 s in
          rw (takes, greedy)
            (omega (arith, size, greedy_optimal wait (some t) t marks' ts o.1 spaced))
      | inr skips ↦ rw (skips, greedy) (greedy_optimal wait last t marks ts o.1 s)
    ]

-- What is taken greedily is a spaced choice.
pub greedy_choice :
    (wait : Duration) (last : Option Instant) (ts : List Instant)
    → (marks : List Bool) × IsSpaced wait last (select marks ts)
      × (length (select marks ts) ≡ greedy wait last ts)
unfolding greedy
greedy_choice wait last [] = ([], tt, refl)
greedy_choice wait last (t ∷ ts) = elim (Bool-cases (is_spaced wait last t)) [
  | inl takes ↦
      let (marks, spaced, size) = greedy_choice wait (some t) ts in
      rw (takes, greedy) (true ∷ marks, (takes, spaced), ap suc size)
  | inr skips ↦
      let (marks, spaced, size) = greedy_choice wait last ts in
      rw (skips, greedy) (false ∷ marks, spaced, size)
]
