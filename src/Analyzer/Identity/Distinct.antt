-- ===== src/Analyzer/Identity/Distinct.antt =====
-- src/itn_uptime_analyzer/identity.go: no identity is listed twice.
use uptime_service_backend.Base.{
  ◌≡◌, ◌≢◌, refl, sym, All, Bool, true, false, not, ◌&&◌, ◌||◌, List, [], ◌∷◌, ◌++◌, arith, inl,
  inr, Bool-cases,
}
use uptime_service_backend.Base.Result.{or_fail, AllOk, AllOk-bind, AllOk-bind_after}
use uptime_service_backend.Base.Text.{Bytes, equal, equal_iff}
use uptime_service_backend.Clock.{after}
use uptime_service_backend.Externals.{Externals}
use uptime_service_backend.Request.{MetaToBeSaved}
use uptime_service_backend.Analyzer.{fatal, Object, Listing, Libraries, get_submission_time}
use uptime_service_backend.Analyzer.Identity.{
  Identity, Settings, is_identity_in_array, identity_of, append_new, visit, visit_page, visit_pages,
  create_identities,
}

-- No identity has the id of a later one.
abbrev pub AllDistinct : List Identity → Type 0
AllDistinct [] = Unit
AllDistinct (x ∷ xs) = All (λ (y : Identity). x.id ≢ y.id) xs × AllDistinct xs

-- The same as a test.
distinct : List Identity → Bool
distinct [] = true
distinct (x ∷ xs) = not (is_identity_in_array x.id xs) && distinct xs

in_array-All :
    (id : Bytes) (xs : List Identity)
    → is_identity_in_array id xs ≡ false
    → All (λ (y : Identity). id ≢ y.id) xs
unfolding is_identity_in_array
in_array-All id [] h = tt
in_array-All id (x ∷ xs) h =
    (λ same. ground (arith, h, equal_iff x.id id, sym same), in_array-All id xs (ground (arith, h)))

distinct-AllDistinct : (xs : List Identity) → distinct xs ≡ true → AllDistinct xs
unfolding distinct
distinct-AllDistinct [] h = tt
distinct-AllDistinct (x ∷ xs) h =
    (in_array-All x.id xs (ground (arith, h)), distinct-AllDistinct xs (ground (arith, h)))

in_array-append :
    (id : Bytes) (xs : List Identity) (y : Identity)
    → is_identity_in_array id (xs ++ y ∷ []) ≡ (is_identity_in_array id xs || equal y.id id)
unfolding is_identity_in_array
in_array-append id [] y = ground arith
in_array-append id (x ∷ xs) y = ground (arith, in_array-append id xs y)

equal_comm : (xs ys : Bytes) → equal xs ys ≡ equal ys xs
equal_comm xs ys = ground (arith, equal_iff xs ys, equal_iff ys xs)

distinct-append :
    (xs : List Identity) (y : Identity)
    → distinct xs ≡ true
    → is_identity_in_array y.id xs ≡ false
    → distinct (xs ++ y ∷ []) ≡ true
unfolding distinct is_identity_in_array
distinct-append [] y h new = refl
distinct-append (x ∷ xs) y h new =
    ground (arith, h, new, in_array-append x.id xs y, equal_comm y.id x.id, distinct-append xs y)

module _ (lib : Libraries) (ext : Externals) (config : Settings) where
  abbrev State : Type 0
  State = MetaToBeSaved × List Identity

  abbrev IsDistinct : State → Type 0
  IsDistinct s = distinct s.1 ≡ true

  append_new-distinct :
      (x : Identity) (xs : List Identity)
      → distinct xs ≡ true
      → distinct (append_new lib ext config x xs) ≡ true
  append_new-distinct x xs h = elim (Bool-cases (is_identity_in_array x.id xs)) [
    | inl old ↦ rw old h
    | inr new ↦ rw new (distinct-append xs x h new)
  ]

  visit-IsDistinct :
      (obj : Object) (data_ : MetaToBeSaved) (xs : List Identity)
      → distinct xs ≡ true
      → AllOk IsDistinct (visit lib ext config obj (data_, xs))
  unfolding visit
  visit-IsDistinct obj data_ xs h = AllOk-bind IsDistinct (get_submission_time lib obj.key) _ λ at.
      elim (Bool-cases (after at config.period.start && after config.period.end at)) [
        | inl inside ↦ rw inside (
            AllOk-bind IsDistinct (or_fail obj.contents fatal) _ λ contents.
              AllOk-bind IsDistinct (or_fail (lib.unmarshal_meta contents data_) fatal) _
                λ data'. append_new-distinct (identity_of lib ext config data') xs h)
        | inr outside ↦ rw outside h
      ]

  visit_page-IsDistinct :
      (objs : List Object) (s : State)
      → IsDistinct s
      → AllOk IsDistinct (visit_page lib ext config objs s)
  unfolding visit_page
  visit_page-IsDistinct [] s h = h
  visit_page-IsDistinct (obj ∷ objs) (d, xs) h =
      AllOk-bind_after IsDistinct (visit lib ext config obj (d, xs)) _ (visit-IsDistinct obj d xs h)
        λ s' h'. visit_page-IsDistinct objs s' h'

  visit_pages-IsDistinct :
      (pages : Listing) (s : State)
      → IsDistinct s
      → AllOk IsDistinct (visit_pages lib ext config pages s)
  unfolding visit_pages
  visit_pages-IsDistinct [] s h = h
  visit_pages-IsDistinct (page ∷ pages) s h = AllOk-bind IsDistinct (or_fail page fatal) _ λ objs.
      AllOk-bind_after IsDistinct (visit_page lib ext config objs s) _
        (visit_page-IsDistinct objs s h) λ s' h'. visit_pages-IsDistinct pages s' h'

  -- Whatever the bucket holds, no two of the identities that CreateIdentities returns have the same id.
  pub create_identities-distinct :
      (empty : MetaToBeSaved) (pages : Listing)
      → AllOk AllDistinct (create_identities lib ext config empty pages)
  unfolding create_identities distinct
  create_identities-distinct empty pages =
      AllOk-bind_after AllDistinct (visit_pages lib ext config pages (empty, [])) _
        (visit_pages-IsDistinct pages (empty, []) refl) λ s h. distinct-AllDistinct s.1 h
