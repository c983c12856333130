-- ===== src/Whitelist/Rows.antt =====
-- Which keys a spreadsheet registers.
use uptime_service_backend.Base.{
  ◌≡◌, ◌≢◌, ◌↔◌, ◌⊎◌, refl, ap, true, Option, none, some, List, [], ◌∷◌, inl, inr, arith,
  Bool-cases,
}
use uptime_service_backend.Base.Text.{equal, equal→eq, equal_refl}
use uptime_service_backend.Base.Dict.{lookup, lookup-insert}
use uptime_service_backend.Externals.{Externals}
use uptime_service_backend.Keys.{Pk, KeyError, nil_pk, string_to_pk}
use uptime_service_backend.Whitelist.{
  Whitelist, Cell, text, other, add_decoded, process_row, process_rows_from, process_rows,
}

add_decoded_cases :
    (wl : Whitelist) (r : Pk × Option KeyError) (pk : Pk)
    → ((r ≡ (pk, none)) × (lookup pk (add_decoded wl r) ≡ some true))
      ⊎ ((r ≢ (pk, none)) × (lookup pk (add_decoded wl r) ≡ lookup pk wl))
unfolding add_decoded
add_decoded_cases wl (k, some e) pk = inr (λ h. cc, refl)
add_decoded_cases wl (k, none) pk = elim (Bool-cases (equal k pk)) [
  | inl same ↦ inl (cc (equal→eq k pk same), rw (lookup-insert k pk true wl, same))
  | inr differ ↦ inr (
    λ h. cc (ap (λ (r : Pk × Option KeyError). equal r.0 pk) h, equal_refl pk),
    rw (lookup-insert k pk true wl, differ),
  )
]

module _ (ext : Externals) where
  -- The first cell of the row is a text that decodes to the key.
  abbrev pub Names : Pk → List Cell → Type 0
  Names pk [] = ⊥
  Names pk (other ∷ row) = ⊥
  Names pk (text v ∷ row) = string_to_pk ext nil_pk v ≡ (pk, none)

  abbrev pub SomeNames : Pk → List (List Cell) → Type 0
  SomeNames pk [] = ⊥
  SomeNames pk (row ∷ rows) = Names pk row ⊎ SomeNames pk rows

  process_row_cases :
      (wl : Whitelist) (row : List Cell) (pk : Pk)
      → (Names pk row × (lookup pk (process_row ext wl row) ≡ some true))
        ⊎ ((¬ Names pk row) × (lookup pk (process_row ext wl row) ≡ lookup pk wl))
  unfolding process_row
  process_row_cases wl [] pk = inr (λ h. h, refl)
  process_row_cases wl (other ∷ row) pk = inr (λ h. h, refl)
  process_row_cases wl (text v ∷ row) pk = add_decoded_cases wl (string_to_pk ext nil_pk v) pk

  process_rows_from_cases :
      (wl : Whitelist) (rows : List (List Cell)) (pk : Pk)
      → (lookup pk (process_rows_from ext wl rows) ≢ none)
        ↔ (SomeNames pk rows ⊎ (lookup pk wl ≢ none))
  unfolding process_rows_from
  process_rows_from_cases wl [] pk = (λ h. inr h, elim [ inl h ↦ absurd h | inr h ↦ h ])
  process_rows_from_cases wl (row ∷ rows) pk =
      let later = process_rows_from_cases (process_row ext wl row) rows pk in
      elim (process_row_cases wl row pk) [
        | inl (named, found) ↦
            (λ h. inl (inl named), λ h. later.1 (inr (λ e. ground (arith, found))))
        | inr (unnamed, kept) ↦ (
          λ h. elim (later.0 h) [ inl names ↦ inl (inr names) | inr old ↦ inr (rw kept at old) ],
          elim [
            | inl (inl named) ↦ absurd (unnamed named)
            | inl (inr names) ↦ later.1 (inl names)
            | inr old ↦ later.1 (inr (rw kept old))
          ],
        )
      ]

  -- A key is registered exactly if the first cell of some row is a text that decodes to it; rows
  -- that are empty, hold another type or hold no key are skipped and stop nothing.
  pub process_rows-SomeNames :
      (rows : List (List Cell)) (pk : Pk)
      → (lookup pk (process_rows ext rows) ≢ none) ↔ SomeNames pk rows
  unfolding process_rows lookup
  process_rows-SomeNames rows pk =
      let from = process_rows_from_cases [] rows pk in
      (
        λ h. elim (from.0 h) [ inl names ↦ names | inr old ↦ absurd (old refl) ],
        λ names. from.1 (inl names),
      )
