-- ===== src/Columns/Lookup.antt =====
-- getTypeProperties of tabular_messages.go: which properties it finds for a column, and for which user types it panics.
use tds.Base.{
  ℕ, zero, suc, ◌<◌, ◌≤◌, ◌≡◌, refl, ap, sym, ◌∙◌, Bool, true, false, ◌⊎◌, inl, inr, Option, none,
  some, List, [], ◌∷◌, length, arith, ltb, ◌==◌, if◌then◌else◌, ltb-false, ==_iff,
}
use native.Mathlib.Decide.{dec_le}
use tds.Base.Int.{ℤ, pos, negsuc}
use tds.Golang.Errors.{Error, panic}
use tds.Types.DataTypes.{concrete_types}
use tds.Types.Table.{TypeAttribute, attributes_of, is_concrete}
use tds.Columns.{
  ColType, at_index, concrete_type, merge_found, merge_concrete, set_write_options, set_merged,
  get_type_properties, has,
}

-- The properties of the data type at a place of a table, if it has any.
abbrev properties_at : List ℕ → ℕ → Option TypeAttribute
properties_at [] n = none
properties_at (t ∷ ts) zero = attributes_of t
properties_at (t ∷ ts) (suc n) = properties_at ts n

abbrev wanted : ℤ → Option TypeAttribute
wanted (negsuc n) = none
wanted (pos n) = properties_at concrete_types n

abbrev or_own : Option TypeAttribute → TypeAttribute → TypeAttribute
or_own none props = props
or_own (some c) props = c

-- The properties of a column: its data type's own if that is concrete, else those of the type that the user type stands
-- for, if it stands for one.
abbrev pub expected : ℤ → TypeAttribute → TypeAttribute
expected u props = if has props.options is_concrete then props else or_own (wanted u) props

-- A user type before the table of concrete types, or the one just behind it.
abbrev pub is_outside : ℤ → Bool
is_outside (negsuc n) = true
is_outside (pos n) = n == length concrete_types

either_same : (b : Bool) (props : TypeAttribute) → props ≡ (if b then props else props)
either_same true props = refl
either_same false props = refl

merge_found_lem :
    (c : Option TypeAttribute) (props : TypeAttribute)
    → merge_found c props ≡ (if has props.options is_concrete then props else or_own c props)
unfolding merge_found
merge_found_lem none props = either_same (has props.options is_concrete) props
merge_found_lem (some c) props = refl

at_index-found :
    (ts : List ℕ) (n : ℕ) (props : TypeAttribute)
    → n < length ts
    → merge_concrete (at_index ts n) props ≡ some (merge_found (properties_at ts n) props)
unfolding at_index merge_concrete
at_index-found [] n props h = absurd (omega arith)
at_index-found (t ∷ ts) zero props h = refl
at_index-found (t ∷ ts) (suc n) props h = at_index-found ts n props (omega (arith, h))

at_index-length :
    (ts : List ℕ) (props : TypeAttribute) → merge_concrete (at_index ts (length ts)) props ≡ none
unfolding at_index merge_concrete
at_index-length [] props = refl
at_index-length (t ∷ ts) props = at_index-length ts props

properties_at-none : (ts : List ℕ) (n : ℕ) → length ts ≤ n → properties_at ts n ≡ none
properties_at-none [] n h = refl
properties_at-none (t ∷ ts) zero h = absurd (omega arith)
properties_at-none (t ∷ ts) (suc n) h = properties_at-none ts n (omega (arith, h))

-- What the table gives for a user type: a panic outside of it, and the properties of the column elsewhere.
abbrev Merged : ℤ → TypeAttribute → Type 0
Merged u props =
    ((is_outside u ≡ true)
      × (merge_concrete (concrete_type u) props ≡ none)
      × (expected u props ≡ props))
    ⊎ ((is_outside u ≡ false) × (merge_concrete (concrete_type u) props ≡ some (expected u props)))

other_number : (n k : ℕ) → (n < k) ⊎ (k < n) → (n == k) ≡ false
other_number n k (inl h) = ground (arith, h)
other_number n k (inr h) = ground (arith, h)

-- A user type for which the table has no properties gives the column its own.
expected-own :
    (n : ℕ) (props : TypeAttribute) → length concrete_types ≤ n → expected (pos n) props ≡ props
expected-own n props h =
    ap (λ c. if has props.options is_concrete then props else or_own c props)
      (properties_at-none concrete_types n h)
    ∙ sym (either_same (has props.options is_concrete) props)

concrete_type-inside :
    (n : ℕ) (props : TypeAttribute) → n < length concrete_types → Merged (pos n) props
unfolding concrete_type
concrete_type-inside n props h = inr (
  other_number n (length concrete_types) (inl h),
  rw (ltb-false (length concrete_types) n (omega (arith, h)))
      (at_index-found concrete_types n props h ∙ ap some (merge_found_lem (wanted (pos n)) props)),
)

concrete_type-beyond :
    (n : ℕ) (props : TypeAttribute) → length concrete_types < n → Merged (pos n) props
unfolding concrete_type merge_concrete
concrete_type-beyond n props h =
    let past : ltb (length concrete_types) n ≡ true = ground (arith, h) in
    inr (
      other_number n (length concrete_types) (inr h),
      rw past (ap some (sym (expected-own n props (omega (arith, h))))),
    )

concrete_type-end :
    (n : ℕ) (props : TypeAttribute) → n ≡ length concrete_types → Merged (pos n) props
unfolding concrete_type
concrete_type-end n props h = inl (
  (==_iff n (length concrete_types)).1 h,
  rw (ltb-false (length concrete_types) n (omega (arith, h)), h)
      (at_index-length concrete_types props),
  expected-own n props (omega (arith, h)),
)

concrete_type-Merged : (u : ℤ) (props : TypeAttribute) → Merged u props
unfolding concrete_type merge_concrete
concrete_type-Merged (negsuc n) props =
    inl (refl, refl, sym (either_same (has props.options is_concrete) props))
concrete_type-Merged (pos n) props = elim (dec_le (suc n) (length concrete_types)) [
  | yes inside ↦ concrete_type-inside n props inside
  | no behind ↦ elim (dec_le (suc (length concrete_types)) n) [
    | yes past ↦ concrete_type-beyond n props past
    | no before ↦ concrete_type-end n props (omega (arith, behind, before))
  ]
]

-- The rest of the look-up, for what the table gives.
set_write_options-same :
    (t : ColType) (c : Option TypeAttribute)
    → ((set_write_options t c).valid ≡ t.valid)
      × ((set_write_options t c).options ≡ t.options)
      × ((set_write_options t c).encoding_props ≡ t.encoding_props)
unfolding set_write_options
set_write_options-same t none = (refl, refl, refl)
set_write_options-same t (some c) = (refl, refl, refl)

-- The outcome of the look-up for a user type.
abbrev pub LookedUp : ℤ → TypeAttribute → ColType × Option Error → Type 0
LookedUp u props r =
    (r.1 ≡ (if is_outside u then some panic else none))
    × (r.0.valid ≡ true)
    × (r.0.options ≡ props.options)
    × (r.0.encoding_props ≡ some (expected u props))

set_merged-LookedUp :
    (t : ColType) (u : ℤ) (props : TypeAttribute)
    → t.valid ≡ true
    → t.options ≡ props.options
    → t.encoding_props ≡ some props
    → Merged u props
    → LookedUp u props (set_merged t (merge_concrete (concrete_type u) props))
unfolding set_merged
set_merged-LookedUp t u props v o e (inl (outside, gone, own)) =
    rw (gone, outside) (refl, v, o, e ∙ ap some (sym own))
set_merged-LookedUp t u props v o e (inr (inside, found)) =
    let m = expected u props in
    let (valid, options, same) =
      set_write_options-same (record t { encoding_props = some m })
        (attributes_of m.encoding_type) in
    rw (found, inside) (refl, valid ∙ v, options ∙ o, same)

-- For a data type of the type table and any user type, getTypeProperties marks the column as valid, takes the options of
-- reading from the data type, and finds the properties of the data type itself, if it is concrete, or else of the
-- data type that the table of concrete types has for the user type, if that has any. It panics for a negative user type and for the user
-- type 85, one behind the table, and reports no error for any other.
pub get_type_properties-LookedUp :
    (t : ColType) (props : TypeAttribute)
    → attributes_of t.data_type ≡ some props
    → LookedUp t.user_type props (get_type_properties t)
get_type_properties-LookedUp t props e =
    let found = record t { encoding_props = some props; valid = true; options = props.options } in
    let opened : get_type_properties t
        ≡ set_merged found (merge_concrete (concrete_type t.user_type) props) =
      unfold get_type_properties in simp (get_type_properties, e) refl in
    rw opened (
      set_merged-LookedUp found t.user_type props refl refl refl
        (concrete_type-Merged t.user_type props))
