-- ===== src/Home/Address/Narrowed.antt =====
-- What a resolved address means.
use eidolon_agent.Base.{
  ◌≡◌, inl, inr, refl, subst, Bool, true, false, Option, none, some, List, [], ◌∷◌, String, arith,
  str_eq, opt_eq, keep_if, find_first, All, any, eq_refl, Bool-cases, Option-cases,
}
use eidolon_agent.Home.Address.{
  Addressed, Area, Address, resolved, given, is_empty, is_given, prefer_local, decide, of_kind,
  has_name, is_area, in_area, resolve_address,
}

-- A test that all devices pass goes on to those that are kept.
All-keep_if :
    (P : Addressed → Type 0) (p : Addressed → Bool) (xs : List Addressed)
    → All P xs
    → All P (keep_if p xs)
All-keep_if P p [] h = tt
All-keep_if P p (x ∷ xs) h = elim (Bool-cases (p x)) [
  | inl y ↦ rw y (h.0, All-keep_if P p xs h.1)
  | inr n ↦ rw n (All-keep_if P p xs h.1)
]

-- Of the resolved devices there is one, or all were asked for and there are several.
abbrev pub IsChoice : Address → List Addressed → Type 0
IsChoice a [] = ⊥
IsChoice a (d ∷ []) = Unit
IsChoice a (d ∷ e ∷ es) = a.everything ≡ true

module _ (P : Addressed → Type 0) (a : Address) (origin : Option String) where
  local-chosen :
      (area_named : Bool) (o : Option String) (pool found : List Addressed)
      → All P pool
      → prefer_local area_named o pool ≡ resolved found
      → All P found × IsChoice a found
  unfolding prefer_local
  local-chosen area_named none pool found h e = cc e
  local-chosen true (some o) pool found h e = cc e
  local-chosen false (some o) pool found h e =
      by_local (keep_if (λ (d : Addressed). opt_eq d.area_id (some o)) pool) refl
        (All-keep_if P (λ (d : Addressed). opt_eq d.area_id (some o)) pool h)
    where
      by_local :
          (ds : List Addressed)
          → keep_if (λ (d : Addressed). opt_eq d.area_id (some o)) pool ≡ ds
          → All P (keep_if (λ (d : Addressed). opt_eq d.area_id (some o)) pool)
          → All P found × IsChoice a found
      by_local [] k l = cc (rw (k, prefer_local) at e)
      by_local (d ∷ []) k l =
          let is : d ∷ [] ≡ found = cc (rw (k, prefer_local) at e) in
          subst (λ xs. All P xs × IsChoice a xs) is (rw k at l, tt)
      by_local (d ∷ f ∷ ds) k l = cc (rw (k, prefer_local) at e)

  decide-chosen :
      (pool found : List Addressed)
      → All P pool
      → decide a origin pool ≡ resolved found
      → All P found × IsChoice a found
  unfolding decide
  decide-chosen [] found h e = cc e
  decide-chosen (d ∷ []) found h e = elim (Bool-cases (is_empty a)) [
    | inl blank ↦ cc (rw (blank, decide) at e)
    | inr named ↦
        let is : d ∷ [] ≡ found = cc (rw (named, decide) at e) in
        subst (λ xs. All P xs × IsChoice a xs) is (h, tt)
  ]
  decide-chosen (d ∷ f ∷ ds) found h e = elim (Bool-cases (is_empty a)) [
    | inl blank ↦ cc (rw (blank, decide) at e)
    | inr named ↦ elim (Bool-cases a.everything) [
      | inl every ↦
          let is : d ∷ f ∷ ds ≡ found = cc (rw (named, every, decide) at e) in
          subst (λ xs. All P xs × IsChoice a xs) is (h, every)
      | inr one ↦
          local-chosen (is_given a.area) origin (d ∷ f ∷ ds) found h (rw (named, one, decide) at e)
    ]
  ]

abbrev pub has_id : String → Addressed → Bool
has_id id d = str_eq d.device_id id

All-listed : (xs : List Addressed) → All (λ (d : Addressed). any (has_id d.device_id) xs ≡ true) xs
All-listed [] = tt
All-listed (x ∷ xs) = (ground (arith, eq_refl x.device_id), later xs (All-listed xs))
  where
    later :
        (ys : List Addressed)
        → All (λ (d : Addressed). any (has_id d.device_id) xs ≡ true) ys
        → All (λ (d : Addressed). any (has_id d.device_id) (x ∷ xs) ≡ true) ys
    later [] h = tt
    later (y ∷ ys) h = (ground (arith, h), later ys h.1)

-- What is kept has the properties that it had, and passes the test.
All-kept :
    (P Q : Addressed → Type 0) (p : Addressed → Bool) (xs : List Addressed)
    → ((d : Addressed) → P d → p d ≡ true → Q d)
    → All P xs
    → All Q (keep_if p xs)
All-kept P Q p [] k h = tt
All-kept P Q p (x ∷ xs) k h = elim (Bool-cases (p x)) [
  | inl y ↦ rw y (k x h.0 y, All-kept P Q p xs k h.1)
  | inr n ↦ rw n (All-kept P Q p xs k h.1)
]

-- The device is in the area, if one is given: the first that the text names.
abbrev pub InArea : (Area → Bool) → List Area → Addressed → Type 0
InArea named areas d =
    (x : Area) × (find_first named areas ≡ some x) × (opt_eq d.area_id (some x.area_id) ≡ true)

abbrev pub FitsArea : (String → String) → List Area → Option String → Addressed → Type 0
FitsArea casefold areas none d = Unit
FitsArea casefold areas (some area) d = InArea (is_area casefold area) areas d

-- A device of the registry that has the name, is in the area and is of the type that are given.
pub record Fits (casefold : String → String) (devices : List Addressed) (areas : List Area)
    (a : Address) (d : Addressed) : Type 0 where
  pub listed : any (has_id d.device_id) devices ≡ true
  pub named : has_name casefold (given a.name) d ≡ true
  pub placed : FitsArea casefold areas (given a.area) d
  pub typed : of_kind (given a.device_type) d ≡ true

-- A resolved address means devices of the registry that fit everything it says, and one device
-- only, or at least two if all were asked for.
pub resolve_address-Fits :
    (casefold : String → String) (devices : List Addressed) (areas : List Area) (a : Address)
    (origin : Option String) (found : List Addressed)
    → resolve_address casefold devices areas a origin ≡ resolved found
    → All (Fits casefold devices areas a) found × IsChoice a found
unfolding resolve_address in_area
resolve_address-Fits casefold devices areas a origin found h =
    let Named : Addressed → Type 0 = λ d.
      (any (has_id d.device_id) devices ≡ true) × (has_name casefold (given a.name) d ≡ true) in
    let pool = keep_if (has_name casefold (given a.name)) devices in
    let named : All Named pool =
      All-kept _ Named (has_name casefold (given a.name)) devices (λ d l n. (l, n))
        (All-listed devices) in
    elim (Option-cases (given a.area)) [
      | inl nowhere ↦
          decide-chosen (Fits casefold devices areas a) a origin
            (keep_if (of_kind (given a.device_type)) pool) found
            (All-kept Named _ (of_kind (given a.device_type)) pool
              (λ d n t. record { listed = n.0; named = n.1; placed = rw nowhere tt; typed = t })
              named)
            (rw (nowhere, resolve_address) at h)
      | inr (area, somewhere) ↦ elim (Option-cases (find_first (is_area casefold area) areas)) [
        | inl missing ↦ cc (rw (somewhere, missing, resolve_address, in_area) at h)
        | inr (x, there) ↦
            let Placed : Addressed → Type 0 =
              λ d. Named d × (opt_eq d.area_id (some x.area_id) ≡ true) in
            let local = keep_if (λ (d : Addressed). opt_eq d.area_id (some x.area_id)) pool in
            decide-chosen (Fits casefold devices areas a) a origin
              (keep_if (of_kind (given a.device_type)) local) found
              (All-kept Placed _ (of_kind (given a.device_type)) local
                (λ d n t. record {
                  listed = n.0.0;
                  named = n.0.1;
                  placed = rw somewhere (x, there, n.1);
                  typed = t;
                })
                (All-kept Named Placed _ pool (λ d n p. (n, p)) named))
              (rw (somewhere, there, resolve_address, in_area) at h)
      ]
    ]
