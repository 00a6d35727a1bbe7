-- ===== src/Tools/Schema/Sound.antt =====
-- The validator reports nothing exactly for the values that conform to the schema.
use eidolon_agent.Base.{
  ℕ, suc, ◌≡◌, ◌↔◌, ◌⊎◌, refl, sym, ◌∙◌, Bool, true, false, not, str_eq, str_mem, eq_iff, arith,
  Option, none, some, List, [], ◌∷◌, ◌++◌, String, keep_if, is_some, All, inl, inr, Bool-cases,
}
use Prim.Native.Nat.{Ordering}
use Prim.Native.String.{compare}
use eidolon_agent.Base.Json.{
  Json, Items, Fields, null, bool, int, negative_int, float, str, array, object, no_items, item,
  lookup_field, keys_of,
}
use eidolon_agent.Tools.Schema.{
  Schema, Props, ItemSchema, schema, no_props, prop, any_items, each_item, Segment, key, index,
  SchemaError, missing, unexpected, has_type, insert_sorted, sorted_keys, has_prop, report, is_type,
  missing_keys, extra_keys, first_error, check_type, check_required, check_closed, check_items,
  check_present, in_object, in_array, validate, validate_props, validate_items,
}

-- The types of JSON Schema that a value is of: an integer is a number too, a Boolean is neither, and
-- null has none of those that the validator knows.
abbrev types_of : Json → List String
types_of (object fs) = "object" ∷ []
types_of (str s) = "string" ∷ []
types_of (int n) = "integer" ∷ "number" ∷ []
types_of (negative_int n) = "integer" ∷ "number" ∷ []
types_of (float s) = "number" ∷ []
types_of (bool b) = "boolean" ∷ []
types_of (array xs) = "array" ∷ []
types_of null = []

abbrev known_types : List String
known_types = "object" ∷ "string" ∷ "integer" ∷ "number" ∷ "boolean" ∷ "array" ∷ []

-- What the keywords mean. A type that is not known admits every value.
abbrev pub HasType : Option String → Json → Type 0
HasType none v = Unit
HasType (some t) v = (str_mem t (types_of v) ≡ true) ⊎ (str_mem t known_types ≡ false)

abbrev pub When : Bool → Type 0 → Type 0
When true P = P
When false P = Unit

abbrev pub ForObject : Option String → Json → (Fields → Type 0) → Type 0
ForObject t (object fs) P = When (is_type "object" t) (P fs)
ForObject t _ P = Unit

abbrev pub ForArray : Option String → Json → (Items → Type 0) → Type 0
ForArray t (array xs) P = When (is_type "array" t) (P xs)
ForArray t _ P = Unit

abbrev pub Each : (Json → Type 0) → Items → Type 0
Each P no_items = Unit
Each P (item x xs) = P x × Each P xs

abbrev pub IfPresent : Option Json → (Json → Type 0) → Type 0
IfPresent none P = Unit
IfPresent (some x) P = P x

unfoldable mutual
  -- The type is right; an object has the required keys, no other keys than its properties if it is
  -- closed, and conforming properties; the items of an array conform.
  pub Conforms : Schema → Json → Type 0
  Conforms (schema t required props closed items) v =
      HasType t v
      × ForObject t v (λ fs.
        All (λ k. is_some (lookup_field k fs) ≡ true) required
        × When closed (All (λ k. has_prop k props ≡ true) (keys_of fs))
        × ConformsProps props fs)
      × ForArray t v (ConformsItems items)

  pub ConformsProps : Props → Fields → Type 0
  ConformsProps no_props fs = Unit
  ConformsProps (prop k s ps) fs = IfPresent (lookup_field k fs) (Conforms s) × ConformsProps ps fs

  pub ConformsItems : ItemSchema → Items → Type 0
  ConformsItems any_items xs = Unit
  ConformsItems (each_item s) xs = Each (Conforms s) xs

insert_sorted-ne-nil :
    (k : String) (ks : List String) (e : List String → SchemaError)
    → report e (insert_sorted k ks) ≡ none
    → ⊥
unfolding insert_sorted
insert_sorted-ne-nil k [] e h = cc
insert_sorted-ne-nil k (j ∷ ks) e h = go (compare k j) h
  where
    go :
        (o : Ordering)
        → report e (elim o [
          | Ordering.lt ↦ k ∷ j ∷ ks
          | Ordering.eq ↦ j ∷ ks
          | Ordering.gt ↦ j ∷ insert_sorted k ks
        ])
          ≡ none
        → ⊥
    go Ordering.lt h = cc
    go Ordering.eq h = cc
    go Ordering.gt h = cc

-- A report of sorted keys is empty exactly if there are none.
report_sorted :
    (e : List String → SchemaError) (ks : List String)
    → (report e (sorted_keys ks) ≡ none) ↔ (ks ≡ [])
unfolding sorted_keys
report_sorted e [] = (λ h. refl, λ h. refl)
report_sorted e (k ∷ ks) = (λ h. absurd (insert_sorted-ne-nil k (sorted_keys ks) e h), λ h. cc h)

keep_none :
    (p : String → Bool) (ks : List String)
    → (keep_if (λ k. not (p k)) ks ≡ []) ↔ All (λ k. p k ≡ true) ks
keep_none p [] = (λ h. tt, λ h. refl)
keep_none p (k ∷ ks) = elim (Bool-cases (p k)) [
  | inl e ↦ rw e (λ h. (refl, (keep_none p ks).0 h), λ h. (keep_none p ks).1 h.1)
  | inr e ↦ rw e (λ h. cc h, λ h. cc h.0)
]

first_error-none : (e f : Option SchemaError) → (first_error e f ≡ none) ↔ ((e ≡ none) × (f ≡ none))
first_error-none none f = (λ h. (refl, h), λ h. h.1)
first_error-none (some e) f = (λ h. cc h, λ h. cc h.0)

module _ {A B : Type 0} (e f : Option SchemaError) (p : (e ≡ none) ↔ A) (q : (f ≡ none) ↔ B) where
  iff_two : (first_error e f ≡ none) ↔ (A × B)
  iff_two = (
    λ h. let both = (first_error-none e f).0 h in (p.0 both.0, q.0 both.1),
    λ h. (first_error-none e f).1 (p.1 h.0, q.1 h.1),
  )

module _ {A B C : Type 0} (e f g : Option SchemaError) (p : (e ≡ none) ↔ A) (q : (f ≡ none) ↔ B)
    (r : (g ≡ none) ↔ C) where
  iff_three : (first_error e (first_error f g) ≡ none) ↔ (A × B × C)
  iff_three =
      let rest = iff_two f g q r in
      let whole = iff_two e (first_error f g) p rest in
      (λ h. let x = whole.0 h in (x.0, x.1.0, x.1.1), λ h. whole.1 (h.0, (h.1, h.2)))

unknown_type : (t : String) (v : Json) → str_mem t known_types ≡ false → has_type t v ≡ true
unfolding has_type
unknown_type t v h = ground arith

module _ (t : String) where
  is_known : (v : Json) → str_mem t (types_of v) ≡ true → has_type t v ≡ true
  unfolding has_type
  is_known (object fs) h = rw ((eq_iff t "object").0 (ground (arith, h))) refl
  is_known (str s) h = rw ((eq_iff t "string").0 (ground (arith, h))) refl
  is_known (int n) h = by_number (str_eq t "integer") refl
    where
      by_number : (b : Bool) → str_eq t "integer" ≡ b → has_type t (int n) ≡ true
      by_number true e = rw ((eq_iff t "integer").0 e) refl
      by_number false e = rw ((eq_iff t "number").0 (ground (arith, e, h))) refl
  is_known (negative_int n) h = by_number (str_eq t "integer") refl
    where
      by_number : (b : Bool) → str_eq t "integer" ≡ b → has_type t (negative_int n) ≡ true
      by_number true e = rw ((eq_iff t "integer").0 e) refl
      by_number false e = rw ((eq_iff t "number").0 (ground (arith, e, h))) refl
  is_known (float s) h = rw ((eq_iff t "number").0 (ground (arith, h))) refl
  is_known (bool b) h = rw ((eq_iff t "boolean").0 (ground (arith, h))) refl
  is_known (array xs) h = rw ((eq_iff t "array").0 (ground (arith, h))) refl
  is_known null h = cc h

  known_is :
      (v : Json)
      → str_mem t known_types ≡ true
      → has_type t v ≡ true
      → str_mem t (types_of v) ≡ true
  unfolding has_type
  known_is v k h = ground arith

-- The validator's table is the one of JSON Schema, at each type that it knows and at any other.
has_type_iff : (t : String) (v : Json) → (has_type t v ≡ true) ↔ HasType (some t) v
unfolding has_type
has_type_iff t v = elim (Bool-cases (str_mem t known_types)) [
  | inr other ↦ (λ h. inr other, λ h. unknown_type t v other)
  | inl known ↦ (
    (λ h. inl (known_is t v known h)),
    λ h. elim h [ inl y ↦ is_known t v y | inr n ↦ absurd (clash (sym known ∙ n)) ],
  )
]
  where
    clash : true ≡ false → ⊥
    clash c = cc c

check_type_iff :
    (t : Option String) (v : Json) (path : List Segment)
    → (check_type t v path ≡ none) ↔ HasType t v
unfolding check_type
check_type_iff none v path = (λ h. tt, λ h. refl)
check_type_iff (some t) v path = elim (Bool-cases (has_type t v)) [
  | inl e ↦ rw e (λ h. (has_type_iff t v).0 e, λ h. refl)
  | inr e ↦ rw e (λ h. cc h, λ h. absurd (clash (sym e ∙ (has_type_iff t v).1 h)))
]
  where
    clash : false ≡ true → ⊥
    clash c = cc c

module _ (t : Option String) {P : Fields → Type 0} (check : Fields → Option SchemaError)
    (iff : (fs : Fields) → (check fs ≡ none) ↔ P fs) where
  in_object_iff : (v : Json) → (in_object check t v ≡ none) ↔ ForObject t v P
  in_object_iff (object fs) = elim (Bool-cases (is_type "object" t)) [
    | inl e ↦ rw e (iff fs)
    | inr e ↦ rw e (λ h. tt, λ h. refl)
  ]
  in_object_iff _ = (λ h. tt, λ h. refl)

module _ (t : Option String) {P : Items → Type 0} (check : Items → Option SchemaError)
    (iff : (xs : Items) → (check xs ≡ none) ↔ P xs) where
  in_array_iff : (v : Json) → (in_array check t v ≡ none) ↔ ForArray t v P
  in_array_iff (array xs) = elim (Bool-cases (is_type "array" t)) [
    | inl e ↦ rw e (iff xs)
    | inr e ↦ rw e (λ h. tt, λ h. refl)
  ]
  in_array_iff _ = (λ h. tt, λ h. refl)

check_items_iff :
    {P : Json → Type 0} (check : Json → List Segment → Option SchemaError)
    → ((x : Json) (path : List Segment) → (check x path ≡ none) ↔ P x)
    → (idx : ℕ) (xs : Items) (path : List Segment)
    → (check_items check idx xs path ≡ none) ↔ Each P xs
unfolding check_items
check_items_iff check iff idx no_items path = (λ h. tt, λ h. refl)
check_items_iff check iff idx (item x xs) path =
    iff_two (check x (path ++ index idx ∷ [])) (check_items check (suc idx) xs path)
      (iff x (path ++ index idx ∷ [])) (check_items_iff check iff (suc idx) xs path)

required_iff :
    (required : List String) (fs : Fields) (path : List Segment)
    → (check_required required fs path ≡ none)
      ↔ All (λ k. is_some (lookup_field k fs) ≡ true) required
unfolding check_required
required_iff required fs path =
    let reported = report_sorted (missing path) (missing_keys required fs) in
    let kept = keep_none (λ k. is_some (lookup_field k fs)) required in
    (λ h. kept.0 (reported.0 h), λ h. reported.1 (kept.1 h))

closed_iff :
    (closed : Bool) (props : Props) (fs : Fields) (path : List Segment)
    → (check_closed closed props fs path ≡ none)
      ↔ When closed (All (λ k. has_prop k props ≡ true) (keys_of fs))
unfolding check_closed
closed_iff false props fs path = (λ h. tt, λ h. refl)
closed_iff true props fs path =
    let reported = report_sorted (unexpected path) (extra_keys props fs) in
    let kept = keep_none (λ k. has_prop k props) (keys_of fs) in
    (λ h. kept.0 (reported.0 h), λ h. reported.1 (kept.1 h))

present_iff :
    {P : Json → Type 0} (o : Option Json) (check : Json → Option SchemaError)
    → ((x : Json) → (check x ≡ none) ↔ P x)
    → (check_present o check ≡ none) ↔ IfPresent o P
present_iff none check iff = (λ h. tt, λ h. refl)
present_iff (some x) check iff = iff x

mutual
  unfolding validate validate_props validate_items Conforms ConformsProps ConformsItems

  validates :
      (s : Schema) (v : Json) (path : List Segment) → (validate s v path ≡ none) ↔ Conforms s v
  validates (schema t required props closed items) v path =
      iff_three (check_type t v path)
        (in_object
          (λ fs.
            first_error (check_required required fs path)
              (first_error (check_closed closed props fs path) (validate_props props fs path)))
          t v)
        (in_array (λ xs. validate_items items xs path) t v) (check_type_iff t v path)
        (in_object_iff t _
          (λ fs.
            iff_three (check_required required fs path) (check_closed closed props fs path)
              (validate_props props fs path) (required_iff required fs path)
              (closed_iff closed props fs path) (validates_props props fs path))
          v)
        (in_array_iff t _ (λ xs. validates_items items xs path) v)

  validates_props :
      (ps : Props) (fs : Fields) (path : List Segment)
      → (validate_props ps fs path ≡ none) ↔ ConformsProps ps fs
  validates_props no_props fs path = (λ h. tt, λ h. refl)
  validates_props (prop k s ps) fs path =
      iff_two (check_present (lookup_field k fs) (λ x. validate s x (path ++ key k ∷ [])))
        (validate_props ps fs path)
        (present_iff (lookup_field k fs) _ (λ x. validates s x (path ++ key k ∷ [])))
        (validates_props ps fs path)

  validates_items :
      (items : ItemSchema) (xs : Items) (path : List Segment)
      → (validate_items items xs path ≡ none) ↔ ConformsItems items xs
  validates_items any_items xs path = (λ h. tt, λ h. refl)
  validates_items (each_item s) xs path =
      check_items_iff (validate s) (λ x p. validates s x p) 0 xs path

-- A value passes the validator, at any path, exactly if it conforms to the schema: no rejected
-- value conforms, and no value that fails a keyword is let through.
pub validate-Conforms :
    (s : Schema) (v : Json) (path : List Segment) → (validate s v path ≡ none) ↔ Conforms s v
validate-Conforms s v path = validates s v path
