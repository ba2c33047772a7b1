-- ===== src/Text/Table.antt =====
-- `HashMap<String, V>`: a list of the keys with their values, each key once.
use kiliax.Prelude.{
  ◌≡◌, refl, ap, false, List, [], ◌∷◌, Option, none, some, if◌then◌else◌, Bool-cases, inl, inr,
}
use mathlib.Core.Option
use kiliax.Text.{Text, text_eq}
use kiliax.Text.Equal.{text_eq-same, text_eq-through}

abbrev pub Table {ℓ} : Type ℓ → Type ℓ
Table V = List (Text × V)

module _ {ℓ} {V : Type ℓ} where
  -- `get`
  unfoldable pub lookup : Text → Table V → Option V
  lookup key [] = none
  lookup key ((k, v) ∷ table) =
      let rest = lookup key table in if text_eq key k then some v else rest

  unfoldable pub insert : Text → V → Table V → Table V
  insert key value [] = (key, value) ∷ []
  insert key value ((k, v) ∷ table) =
      let rest = insert key value table in
      if text_eq key k then (key, value) ∷ table else (k, v) ∷ rest

  unfoldable pub remove : Text → Table V → Table V
  remove key [] = []
  remove key ((k, v) ∷ table) =
      let rest = remove key table in if text_eq key k then rest else (k, v) ∷ rest

  -- `values_mut`, with a function of the value.
  unfoldable pub map_values : (V → V) → Table V → Table V
  map_values f [] = []
  map_values f ((k, v) ∷ table) = (k, f v) ∷ map_values f table

  pub lookup-insert-same :
      (key : Text) (value : V) (table : Table V) → lookup key (insert key value table) ≡ some value
  unfolding lookup insert
  lookup-insert-same key value [] = rw (text_eq-same key) refl
  lookup-insert-same key value ((k, v) ∷ table) = elim (Bool-cases (text_eq key k)) [
    | inl e ↦ rw e (rw (text_eq-same key) refl)
    | inr e ↦ rw e (rw e (lookup-insert-same key value table))
  ]

  pub lookup-insert-other :
      (q key : Text) (value : V) (table : Table V)
      → text_eq q key ≡ false
      → lookup q (insert key value table) ≡ lookup q table
  unfolding lookup insert
  lookup-insert-other q key value [] h = rw h refl
  lookup-insert-other q key value ((k, v) ∷ table) h = elim (Bool-cases (text_eq key k)) [
    | inl e ↦ rw e (rw (h, text_eq-through q key k h e) refl)
    | inr e ↦
        rw e (ap (λ r. if text_eq q k then some v else r) (lookup-insert-other q key value table h))
  ]

  pub lookup-remove-other :
      (q key : Text) (table : Table V)
      → text_eq q key ≡ false
      → lookup q (remove key table) ≡ lookup q table
  unfolding lookup remove
  lookup-remove-other q key [] h = refl
  lookup-remove-other q key ((k, v) ∷ table) h = elim (Bool-cases (text_eq key k)) [
    | inl e ↦ rw e (rw (text_eq-through q key k h e) (lookup-remove-other q key table h))
    | inr e ↦ rw e (ap (λ r. if text_eq q k then some v else r) (lookup-remove-other q key table h))
  ]

  pub lookup-remove-same : (key : Text) (table : Table V) → lookup key (remove key table) ≡ none
  unfolding lookup remove
  lookup-remove-same key [] = refl
  lookup-remove-same key ((k, v) ∷ table) = elim (Bool-cases (text_eq key k)) [
    | inl e ↦ rw e (lookup-remove-same key table)
    | inr e ↦ rw e (rw e (lookup-remove-same key table))
  ]

  pub lookup-map_values :
      (f : V → V) (key : Text) (table : Table V)
      → lookup key (map_values f table) ≡ Option.map f (lookup key table)
  unfolding lookup map_values
  lookup-map_values f key [] = refl
  lookup-map_values f key ((k, v) ∷ table) = elim (Bool-cases (text_eq key k)) [
    | inl e ↦ rw e refl
    | inr e ↦ rw e (lookup-map_values f key table)
  ]
