-- ===== src/Limiter/Heap/Array.antt =====
-- Reads and exchanges of list elements in range, and what they do to counts.
use uptime_service_backend.Base.{
  ℕ, zero, suc, ◌+◌, ◌<◌, ◌≡◌, refl, Bool, some, List, [], ◌∷◌, ◌++◌, arith, ◌==◌, if◌then◌else◌,
  to_ℕ, length, get_elem?, get_or, set, count, length-set, take, ◌≤◌,
}

module _ {ℓ} {A : Type ℓ} (d : A) where
  pub get_elem?-get_or : (h : List A) (i : ℕ) → i < length h → get_elem? h i ≡ some (get_or h i d)
  get_elem?-get_or [] i p = absurd (omega arith)
  get_elem?-get_or (x ∷ h) zero p = refl
  get_elem?-get_or (x ∷ h) (suc i) p = get_elem?-get_or h i (omega arith)

  pub get_or-set :
      (h : List A) (i : ℕ) (v : A) (c : ℕ)
      → i < length h
      → get_or (set h i v) c d ≡ (if i == c then v else get_or h c d)
  get_or-set [] i v c p = absurd (omega arith)
  get_or-set (x ∷ h) zero v zero p = refl
  get_or-set (x ∷ h) zero v (suc c) p = ground arith
  get_or-set (x ∷ h) (suc i) v zero p = ground arith
  get_or-set (x ∷ h) (suc i) v (suc c) p = ground (arith, get_or-set h i v c)

  pub get_or-append :
      (h : List A) (x : A) (c : ℕ) → c < length h → get_or (h ++ x ∷ []) c d ≡ get_or h c d
  get_or-append [] x c p = absurd (omega arith)
  get_or-append (y ∷ h) x zero p = refl
  get_or-append (y ∷ h) x (suc c) p = get_or-append h x c (omega arith)

  pub count-set :
      (p : A → Bool) (h : List A) (i : ℕ) (v : A)
      → i < length h
      → count p (set h i v) + to_ℕ (p (get_or h i d)) ≡ count p h + to_ℕ (p v)
  count-set p [] i v b = absurd (omega arith)
  count-set p (x ∷ h) zero v b = omega arith
  count-set p (x ∷ h) (suc i) v b = omega (arith, count-set p h i v (omega arith))

  pub count-take_last :
      (p : A → Bool) (h : List A) (n : ℕ)
      → length h ≡ suc n
      → count p h ≡ count p (take n h) + to_ℕ (p (get_or h n d))
  count-take_last p [] n e = absurd (omega arith)
  count-take_last p (x ∷ []) zero e = omega arith
  count-take_last p (x ∷ y ∷ h) zero e = absurd (omega arith)
  count-take_last p (x ∷ h) (suc n) e = omega (arith, count-take_last p h n (omega arith))

  pub get_or-take : (h : List A) (n c : ℕ) → c < n → get_or (take n h) c d ≡ get_or h c d
  get_or-take h zero c b = absurd (omega arith)
  get_or-take [] (suc n) c b = refl
  get_or-take (x ∷ h) (suc n) zero b = refl
  get_or-take (x ∷ h) (suc n) (suc c) b = get_or-take h n c (omega arith)

  pub length-take_init : (h : List A) (n : ℕ) → n ≤ length h → length (take n h) ≡ n
  length-take_init h zero b = refl
  length-take_init [] (suc n) b = absurd (omega arith)
  length-take_init (x ∷ h) (suc n) b = omega (arith, length-take_init h n (omega arith))

  -- Two elements in each other's place.
  unfoldable pub exchange : List A → ℕ → ℕ → List A
  exchange h i j = set (set h i (get_or h j d)) j (get_or h i d)

  pub length-exchange : (h : List A) (i j : ℕ) → length (exchange h i j) ≡ length h
  unfolding exchange
  length-exchange h i j = simp length-set

  module _ (h : List A) (i j : ℕ) (hi : i < length h) (hj : j < length h) where
    pub get_or-exchange :
        (c : ℕ)
        → get_or (exchange h i j) c d
          ≡ (if j == c then get_or h i d else if i == c then get_or h j d else get_or h c d)
    unfolding exchange
    get_or-exchange c = rw (
      get_or-set (set h i (get_or h j d)) j (get_or h i d) c (rw length-set hj),
      get_or-set h i (get_or h j d) c hi,
    )

    pub count-exchange : (p : A → Bool) → count p (exchange h i j) ≡ count p h
    unfolding exchange
    count-exchange p =
        let moved = set h i (get_or h j d) in
        let kept : get_or moved j d ≡ get_or h j d =
          ground (arith, get_or-set h i (get_or h j d) j) in
        let first = count-set p h i (get_or h j d) hi in
        let second = count-set p moved j (get_or h i d) (rw length-set hj) in
        let second' = rw kept at second in omega arith
