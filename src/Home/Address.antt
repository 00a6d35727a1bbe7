-- ===== src/Home/Address.antt =====
-- `resolve_address` of eidolon_agent/domain/smarthome/addressing.py: the devices that a name, an
-- area and a type mean. Python's case table is a parameter.
pub mod Narrowed
mod Tests
use eidolon_agent.Base.{
  Bool, true, false, not, ◌&&◌, ◌||◌, Option, none, some, List, [], ◌∷◌, ◌++◌, String, map,
  if◌then◌else◌, str_eq, str_mem, opt_eq, keep_if, any, find_first, split, join,
}

-- What addressing reads of a device.
pub record Addressed : Type 0 where
  pub device_id : String
  pub name : String
  pub aliases : List String
  pub area_id : Option String
  pub kind : String

pub record Area : Type 0 where
  pub area_id : String
  pub name : String

-- `Address`
pub record Address : Type 0 where
  pub name : Option String
  pub area : Option String
  pub device_type : Option String
  pub everything : Bool

-- `Resolution`
pub data Resolution : Type 0 where
  resolved ambiguous : List Addressed → Resolution
  not_found : Resolution

-- An optional text that is true: there, and not empty.
abbrev pub given : Option String → Option String
given none = none
given (some s) = if str_eq s "" then none else some s

-- `Address.empty`
abbrev pub is_empty : Address → Bool
is_empty a = elim (given a.name) [
  | some n ↦ false
  | none ↦ elim (given a.area) [
    | some x ↦ false
    | none ↦ elim (given a.device_type) [ some t ↦ false | none ↦ true ]
  ]
]

-- The end of `resolve_address`: several devices, with the speaker's area.
pub prefer_local : Bool → Option String → List Addressed → Resolution
prefer_local area_named none pool = ambiguous pool
prefer_local true (some origin) pool = ambiguous pool
prefer_local false (some origin) pool =
    elim (keep_if (λ (d : Addressed). opt_eq d.area_id (some origin)) pool) [
      | [] ↦ ambiguous pool
      | d ∷ ds ↦ elim ds [ [] ↦ resolved (d ∷ []) | e ∷ es ↦ ambiguous (d ∷ e ∷ es) ]
    ]

abbrev pub is_given : Option String → Bool
is_given o = elim (given o) [ none ↦ false | some s ↦ true ]

pub decide : Address → Option String → List Addressed → Resolution
unfolding prefer_local
decide a origin [] = not_found
decide a origin (d ∷ ds) = if is_empty a then not_found else elim ds [
  | [] ↦ resolved (d ∷ [])
  | e ∷ es ↦
      if a.everything
      then resolved (d ∷ e ∷ es)
      else prefer_local (is_given a.area) origin (d ∷ e ∷ es)
]

-- The two tests of a narrowing, for the devices to which a name or a type applies.
abbrev pub of_kind : Option String → Addressed → Bool
of_kind none d = true
of_kind (some t) d = str_eq d.kind t

module _ (casefold : String → String) where
  -- `_key`
  pub key_of : String → String
  key_of value = casefold (join "" (split value))

  pub has_name : Option String → Addressed → Bool
  unfolding key_of
  has_name none d = true
  has_name (some name) d =
      str_eq (key_of name) (key_of d.device_id)
      || str_mem (key_of name) (map key_of (d.name ∷ d.aliases))

  -- `key in (a.area_id, _key(a.name))`
  pub is_area : String → Area → Bool
  unfolding key_of
  is_area area a = str_eq (key_of area) a.area_id || str_eq (key_of area) (key_of a.name)

  pub in_area : Address → Option String → List Addressed → Option Area → Resolution
  unfolding decide
  in_area a origin pool none = not_found
  in_area a origin pool (some area) = decide a origin (
      keep_if (of_kind (given a.device_type))
        (keep_if (λ (d : Addressed). opt_eq d.area_id (some area.area_id)) pool))

  pub resolve_address : List Addressed → List Area → Address → Option String → Resolution
  unfolding in_area has_name is_area
  resolve_address devices areas a origin =
      let pool = keep_if (has_name (given a.name)) devices in
      elim (given a.area) [
        | some area ↦ in_area a origin pool (find_first (is_area area) areas)
        | none ↦ decide a origin (keep_if (of_kind (given a.device_type)) pool)
      ]
