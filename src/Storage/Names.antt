-- ===== src/Storage/Names.antt =====
-- Splitting the paths that the code builds: the functions of Go's `strings` on joined texts.
use mathlib.Core.List.{append_assoc, append-nil}
use uptime_service_backend.Base.{
  ℕ, zero, suc, ◌+◌, ◌-◌, ◌/◌, ◌%◌, ◌≡◌, refl, ap, ◌∙◌, true, false, none, some, List, [], ◌∷◌,
  ◌++◌, ◌==◌, arith, ltb, All, All-append, length, take, length-append, take-append, drop-append,
  inl, inr, Bool-cases,
}
use uptime_service_backend.Base.Text.{Bytes, equal_refl, trim_suffix}
use uptime_service_backend.Base.Int.{ℤ, pos, negsuc}
use uptime_service_backend.Base.Decimal.{two_digits, decimal, digits_before}
use uptime_service_backend.Clock.{Instant}
use uptime_service_backend.Clock.Civil.{
  civil, date_text, clock_text, year_text, four_digits, format_utc, Civil,
}
use uptime_service_backend.Storage.{split_from, split, last_index}

-- A text in which a byte does not occur.
abbrev pub Without : ℕ → Bytes → Type 0
Without sep = All (λ c. (c == sep) ≡ false)

split_from-last :
    (sep : ℕ) (part s : Bytes) → Without sep s → split_from sep part s ≡ (part ++ s) ∷ []
unfolding split_from
split_from-last sep part [] w = rw (append-nil part) refl
split_from-last sep part (c ∷ s) (w, ws) =
    rw (w, split_from)
      (split_from-last sep (part ++ c ∷ []) s ws ∙ rw (append_assoc part (c ∷ []) s) refl)

split_from-part :
    (sep : ℕ) (part s rest : Bytes)
    → Without sep s
    → split_from sep part (s ++ sep ∷ rest) ≡ (part ++ s) ∷ split_from sep [] rest
unfolding split_from
split_from-part sep part [] rest w =
    let same : (sep == sep) ≡ true = ground arith in rw (same, split_from, append-nil part) refl
split_from-part sep part (c ∷ s) rest (w, ws) =
    rw (w, split_from)
      (split_from-part sep (part ++ c ∷ []) s rest ws ∙ rw (append_assoc part (c ∷ []) s) refl)

-- Two, three and four parts.
pub split-two :
    (sep : ℕ) (a b : Bytes) → Without sep a → Without sep b → split sep (a ++ sep ∷ b) ≡ a ∷ b ∷ []
unfolding split
split-two sep a b wa wb =
    split_from-part sep [] a b wa ∙ ap (λ (l : List Bytes). a ∷ l) (split_from-last sep [] b wb)

pub split-three :
    (sep : ℕ) (a b c : Bytes)
    → Without sep a
    → Without sep b
    → Without sep c
    → split sep (a ++ sep ∷ (b ++ sep ∷ c)) ≡ a ∷ b ∷ c ∷ []
unfolding split
split-three sep a b c wa wb wc =
    split_from-part sep [] a (b ++ sep ∷ c) wa
    ∙ ap (λ (l : List Bytes). a ∷ l) (split_from-part sep [] b c wb)
    ∙ ap (λ (l : List Bytes). a ∷ b ∷ l) (split_from-last sep [] c wc)

pub split-four :
    (sep : ℕ) (a b c d : Bytes)
    → Without sep a
    → Without sep b
    → Without sep c
    → Without sep d
    → split sep (a ++ sep ∷ (b ++ sep ∷ (c ++ sep ∷ d))) ≡ a ∷ b ∷ c ∷ d ∷ []
unfolding split
split-four sep a b c d wa wb wc wd =
    split_from-part sep [] a (b ++ sep ∷ (c ++ sep ∷ d)) wa
    ∙ ap (λ (l : List Bytes). a ∷ l) (split-three sep b c d wb wc wd)

last_index-none : (sep : ℕ) (s : Bytes) → Without sep s → last_index sep s ≡ none
unfolding last_index
last_index-none sep [] w = refl
last_index-none sep (c ∷ s) (w, ws) = rw (last_index-none sep s ws, last_index) (rw w refl)

-- The last occurrence of a byte is the one after which it does not occur.
pub last_index-last :
    (sep : ℕ) (a b : Bytes) → Without sep b → last_index sep (a ++ sep ∷ b) ≡ some (length a)
unfolding last_index
last_index-last sep [] b w =
    let same : (sep == sep) ≡ true = ground arith in
    rw (last_index-none sep b w, last_index) (rw same refl)
last_index-last sep (c ∷ a) b w = rw (last_index-last sep a b w, last_index) refl

pub trim_suffix-append : (s suffix : Bytes) → trim_suffix (s ++ suffix) suffix ≡ s
unfolding trim_suffix
trim_suffix-append s suffix =
    let kept : length (s ++ suffix) - length suffix ≡ length s =
      omega (arith, length-append s suffix) in
    rw (kept, trim_suffix)
      (rw (drop-append s suffix) (rw (equal_refl suffix) (take-append s suffix)))

pub take-Without : (sep n : ℕ) (s : Bytes) → Without sep s → Without sep (take n s)
take-Without sep zero s w = tt
take-Without sep (suc n) [] w = tt
take-Without sep (suc n) (c ∷ s) (w, ws) = (w, take-Without sep n s ws)

pub append-Without : (sep : ℕ) (a b : Bytes) → Without sep a → Without sep b → Without sep (a ++ b)
append-Without sep a b wa wb = All-append (λ c. (c == sep) ≡ false) a b wa wb

-- No time has a slash.
two_digits-Without : (n : ℕ) → Without b'/' (two_digits n)
unfolding two_digits
two_digits-Without n = (ground arith, (ground arith, tt))

digits_before-Without :
    (fuel n : ℕ) (acc : Bytes) → Without b'/' acc → Without b'/' (digits_before fuel n acc)
unfolding digits_before
digits_before-Without zero n acc w = w
digits_before-Without (suc fuel) n acc w =
    let w' : Without b'/' ((b'0' + n % 10) ∷ acc) = (ground arith, w) in
    elim (Bool-cases (n / 10 == 0)) [
      | inl e ↦ rw (e, digits_before) w'
      | inr e ↦
          rw (e, digits_before) (digits_before-Without fuel (n / 10) ((b'0' + n % 10) ∷ acc) w')
    ]

decimal-Without : (n : ℕ) → Without b'/' (decimal n)
unfolding decimal
decimal-Without n = digits_before-Without (suc n) n [] tt

four_digits-Without : (y : ℕ) → Without b'/' (four_digits y)
unfolding four_digits
four_digits-Without y = elim (Bool-cases (ltb y 10000)) [
  | inl e ↦
      rw (e, four_digits)
        (append-Without b'/' (two_digits (y / 100)) (two_digits (y % 100))
          (two_digits-Without (y / 100)) (two_digits-Without (y % 100)))
  | inr e ↦ rw (e, four_digits) (decimal-Without y)
]

year_text-Without : (y : ℤ) → Without b'/' (year_text y)
unfolding year_text
year_text-Without (pos y) = four_digits-Without y
year_text-Without (negsuc y) = (refl, four_digits-Without (suc y))

-- A text, another byte and two digits.
then_digits-Without :
    (s : Bytes) (c n : ℕ)
    → Without b'/' s
    → (c == b'/') ≡ false
    → Without b'/' (s ++ (c ∷ two_digits n))
then_digits-Without s c n w e = append-Without b'/' s (c ∷ two_digits n) w (e, two_digits-Without n)

date_text-Without : (c : Civil) → Without b'/' (date_text c)
unfolding date_text
date_text-Without c =
    then_digits-Without (year_text c.year ++ (b'-' ∷ two_digits c.month)) b'-' c.day
      (then_digits-Without (year_text c.year) b'-' c.month (year_text-Without c.year) refl) refl

clock_text-Without : (c : Civil) → Without b'/' (clock_text c)
unfolding clock_text
clock_text-Without c =
    then_digits-Without (two_digits c.hour ++ (b':' ∷ two_digits c.minute)) b':' c.second
      (then_digits-Without (two_digits c.hour) b':' c.minute (two_digits-Without c.hour) refl) refl

pub format_utc-Without : (t : Instant) → Without b'/' (format_utc t)
unfolding format_utc
format_utc-Without t =
    let c = civil t in
    append-Without b'/' (date_text c ++ (b'T' ∷ clock_text c)) (b'Z' ∷ [])
      (append-Without b'/' (date_text c) (b'T' ∷ clock_text c) (date_text-Without c)
        (refl, clock_text-Without c))
      (refl, tt)
