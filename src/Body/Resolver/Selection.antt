-- ===== src/Body/Resolver/Selection.antt =====
-- What a resolved device is to the target that was named.
use eidolon_agent.Base.{
  ◌≡◌, ◌⊎◌, inl, inr, refl, sym, subst, Bool, true, false, ◌||◌, Option, none, some, List, [], ◌∷◌,
  String, arith, All, keep_if, find_first, Bool-cases, if◌then◌else◌,
}
use eidolon_agent.Body.Resolver.{
  Device, Resolved, found, refused, device_not_found, normalize, is_exact, matches_partial,
  is_source, is_current_alias, pick, or_missing, resolve_body_device,
}

-- The device stands in the list.
pub data Among (d : Device) : List Device → Type 0 where
  here : {ds : List Device} → Among d (d ∷ ds)
  later : {ds : List Device} (e : Device) → Among d ds → Among d (e ∷ ds)

-- Of the devices, `d` alone passes the test.
abbrev pub OnlyOne : (Device → Bool) → Device → List Device → Type 0
OnlyOne p d [] = ⊥
OnlyOne p d (e ∷ ds) =
    ((p e ≡ true) × (d ≡ e) × All (λ x. p x ≡ false) ds) ⊎ ((p e ≡ false) × OnlyOne p d ds)

keep_if_nil : (p : Device → Bool) (ds : List Device) → keep_if p ds ≡ [] → All (λ x. p x ≡ false) ds
keep_if_nil p [] h = tt
keep_if_nil p (e ∷ ds) h = ground (arith, keep_if_nil p ds)

pub keep_if_one :
    (p : Device → Bool) (d : Device) (ds : List Device) → keep_if p ds ≡ d ∷ [] → OnlyOne p d ds
keep_if_one p d [] h = cc h
keep_if_one p d (e ∷ ds) h = elim (Bool-cases (p e)) [
  | inl y ↦ inl (y, cc (rw y at h), keep_if_nil p ds (cc (rw y at h)))
  | inr n ↦ inr (n, keep_if_one p d ds (rw n at h))
]

pub Among-of_OnlyOne :
    (p : Device → Bool) (d : Device) (ds : List Device) → OnlyOne p d ds → Among d ds
Among-of_OnlyOne p d [] h = absurd h
Among-of_OnlyOne p d (e ∷ ds) (inl x) = subst (λ y. Among d (y ∷ ds)) x.1 here
Among-of_OnlyOne p d (e ∷ ds) (inr x) = later e (Among-of_OnlyOne p d ds x.1)

find_first_found :
    (p : Device → Bool) (d : Device) (ds : List Device)
    → find_first p ds ≡ some d
    → Among d ds × (p d ≡ true)
find_first_found p d [] h = cc h
find_first_found p d (e ∷ ds) h = elim (Bool-cases (p e)) [
  | inl y ↦
      let is : e ≡ d = cc (rw y at h) in
      (subst (λ x. Among d (x ∷ ds)) (sym is) here, subst (λ x. p x ≡ true) is y)
  | inr n ↦ let (a, b) = find_first_found p d ds (rw n at h) in (later e a, b)
]

module _ (lower : String → String) (devices : List Device) (source : Option String) where
  -- A name of the current device means a listed device that is the current one, or the source of
  -- the turn; any other name means the one listed device that has it as a key, or, if none has,
  -- the one with a key that contains it.
  pub Selected : String → Device → Type 0
  Selected target d =
      let key = normalize lower target in
      if is_current_alias lower key
      then Among d devices × ((d.is_current_device || is_source lower source d) ≡ true)
      else OnlyOne (is_exact lower key) d devices
      ⊎ (All (λ x. is_exact lower key x ≡ false) devices
          × OnlyOne (matches_partial lower key) d devices)

  pick_cases :
      (ds : List Device) (otherwise : Resolved) (d : Device)
      → pick lower ds otherwise ≡ found d
      → (ds ≡ d ∷ []) ⊎ ((ds ≡ []) × (otherwise ≡ found d))
  pick_cases [] otherwise d h = inr (refl, h)
  pick_cases (x ∷ []) otherwise d h = inl (cc h)
  pick_cases (x ∷ y ∷ ds) otherwise d h = cc h

  or_missing-found : (o : Option Device) (d : Device) → or_missing lower o ≡ found d → o ≡ some d
  or_missing-found none d h = cc h
  or_missing-found (some x) d h = cc h

  named_found :
      (key : String) (d : Device)
      → pick lower
          (keep_if (is_exact lower key) devices)
          (pick lower (keep_if (matches_partial lower key) devices) (refused device_not_found))
        ≡ found d
      → OnlyOne (is_exact lower key) d devices
        ⊎ (All (λ x. is_exact lower key x ≡ false) devices
            × OnlyOne (matches_partial lower key) d devices)
  named_found key d h = elim (pick_cases (keep_if (is_exact lower key) devices) _ d h) [
    | inl one ↦ inl (keep_if_one (is_exact lower key) d devices one)
    | inr rest ↦ elim (pick_cases (keep_if (matches_partial lower key) devices) _ d rest.1) [
      | inl one ↦ inr (
        keep_if_nil (is_exact lower key) devices rest.0,
        keep_if_one (matches_partial lower key) d devices one,
      )
      | inr none_left ↦ cc none_left.1
    ]
  ]

  pub Selected-Among : (target : String) (d : Device) → Selected target d → Among d devices
  unfolding Selected
  Selected-Among target d h = elim (Bool-cases (is_current_alias lower (normalize lower target))) [
    | inl current ↦
        (let x : Among d devices × ((d.is_current_device || is_source lower source d) ≡ true) =
            rw current at h in
          x.0)
    | inr named ↦ elim (rw named at h) [
      | inl one ↦ Among-of_OnlyOne _ d devices one
      | inr part ↦ Among-of_OnlyOne _ d devices part.1
    ]
  ]

  -- A device that is resolved is one of those that were listed, and is selected by the target.
  pub resolve-Selected :
      (target : String) (d : Device)
      → resolve_body_device lower devices target source ≡ found d
      → Selected target d
  unfolding resolve_body_device Selected
  resolve-Selected target d h =
      let key = normalize lower target in
      elim (Bool-cases (is_current_alias lower key)) [
        | inl current ↦ rw current (
            find_first_found (λ (x : Device). x.is_current_device || is_source lower source x) d
              devices (or_missing-found _ d (rw current at h)))
        | inr named ↦ rw named (named_found key d (rw named at h))
      ]
