-- ===== src/Body/Service/Companion.antt =====
-- `send_companion_capability`: a companion's name leads to one provider, online, of that companion.
use eidolon_agent.Base.{
  ℕ, ◌≡◌, ◌⊎◌, inl, inr, refl, sym, ap, ◌∙◌, subst, Bool, true, false, not, some, List, [], ◌∷◌,
  String, arith, keep_if, Bool-cases, All, eq_iff,
}
use eidolon_agent.Body.Resolver.{Device}
use eidolon_agent.Body.Resolver.Selection.{
  Among, here, later, OnlyOne, keep_if_one, Among-of_OnlyOne,
}
use eidolon_agent.Body.Service.{
  Sdk, Request, Command, sent, list_devices, send_command, is_companion, provides, send_to_provider,
  send_to_companion, send_companion_capability, is_offline, other_ids,
}
use eidolon_agent.Body.Service.Checked.{IsChecked, send_command-IsChecked}

-- The devices of the companion that the caller means and that are not offline.
pub candidates : Sdk → String → List Device → List Device
candidates sdk target devices = keep_if (is_companion sdk target) (list_devices false devices)

-- The provider: one of the devices read first, not offline, of the companion that was named. All
-- candidates belong to that one companion, and no other one provides the capability.
pub record IsProvider (sdk : Sdk) (devices : List Device) (target op : String) (version : ℕ)
    (p : Device) : Type 0 where
  pub listed : Among p devices
  pub awake : is_offline p.status ≡ false
  pub named : is_companion sdk target p ≡ true
  pub capable : provides sdk op version p ≡ true
  pub only : OnlyOne (provides sdk op version) p (candidates sdk target devices)
  pub one_companion :
      All
        (λ (d : Device). d.provider_companion_id ≡ p.provider_companion_id)
        (candidates sdk target devices)

Among-cons : (p d : Device) (ds : List Device) → Among p (d ∷ ds) → (p ≡ d) ⊎ Among p ds
Among-cons p d ds here = inl refl
Among-cons p d ds (later e m) = inr m

-- A kept device is one of the list, and passes the test.
Among-keep_if :
    (test : Device → Bool) (p : Device) (ds : List Device)
    → Among p (keep_if test ds)
    → Among p ds × (test p ≡ true)
Among-keep_if test p [] m = elim m [ ]
Among-keep_if test p (d ∷ ds) m = elim (Bool-cases (test d)) [
  | inl y ↦ elim (Among-cons p d (keep_if test ds) (rw y at m)) [
    | inl is ↦ (subst (λ x. Among x (d ∷ ds)) (sym is) here, ap test is ∙ y)
    | inr rest ↦ let (l, t) = Among-keep_if test p ds rest in (later d l, t)
  ]
  | inr n ↦ let (l, t) = Among-keep_if test p ds (rw n at m) in (later d l, t)
]

OnlyOne-test :
    (test : Device → Bool) (p : Device) (ds : List Device) → OnlyOne test p ds → test p ≡ true
OnlyOne-test test p [] h = absurd h
OnlyOne-test test p (d ∷ ds) (inl x) = ap test x.1 ∙ x.0
OnlyOne-test test p (d ∷ ds) (inr x) = OnlyOne-test test p ds x.1

same_ids :
    (id : String) (ds : List Device)
    → other_ids id ds ≡ []
    → All (λ (d : Device). d.provider_companion_id ≡ id) ds
same_ids id [] h = tt
same_ids id (d ∷ ds) h = ground (arith, same_ids id ds, eq_iff d.provider_companion_id id)

Among-All :
    (id : String) (p : Device) (ds : List Device)
    → Among p ds
    → All (λ (d : Device). d.provider_companion_id ≡ id) ds
    → p.provider_companion_id ≡ id
Among-All id p [] m a = elim m [ ]
Among-All id p (d ∷ ds) here a = a.0
Among-All id p (d ∷ ds) (later e m) a = Among-All id p ds m a.1

All-trans :
    (i j : String) (ds : List Device)
    → i ≡ j
    → All (λ (d : Device). d.provider_companion_id ≡ i) ds
    → All (λ (d : Device). d.provider_companion_id ≡ j) ds
All-trans i j ds e h = subst (λ k. All (λ (d : Device). d.provider_companion_id ≡ k) ds) e h

module _ (sdk : Sdk) (devices again : List Device) (target : String) (version : ℕ) (r : Request)
    (c : Command) where
  -- One provider, and one companion, in a list of candidates.
  abbrev Chosen : List Device → Device → Type 0
  Chosen ds p =
      OnlyOne (provides sdk r.op version) p ds
      × All (λ (d : Device). d.provider_companion_id ≡ p.provider_companion_id) ds
      × (send_command sdk again p.device_id (record r { capability_version = some version })
          ≡ sent c)

  to_provider :
      (ds ps : List Device)
      → keep_if (provides sdk r.op version) ds ≡ ps
      → send_to_provider sdk again ps version r ≡ sent c
      → (p : Device) × OnlyOne (provides sdk r.op version) p ds
        × (send_command sdk again p.device_id (record r { capability_version = some version })
            ≡ sent c)
  unfolding send_to_provider
  to_provider ds [] e h = cc h
  to_provider ds (p ∷ []) e h = (p, keep_if_one (provides sdk r.op version) p ds e, h)
  to_provider ds (p ∷ q ∷ ps) e h = cc h

  to_companion :
      (ds : List Device)
      → send_to_companion sdk again ds version r ≡ sent c
      → (p : Device) × Chosen ds p
  unfolding send_to_companion
  to_companion [] h = cc h
  to_companion (d ∷ ds) h = go (other_ids d.provider_companion_id ds) refl h
    where
      go :
          (ids : List String)
          → other_ids d.provider_companion_id ds ≡ ids
          → send_to_companion sdk again (d ∷ ds) version r ≡ sent c
          → (p : Device) × Chosen (d ∷ ds) p
      go [] e h =
          let (p, one, is_sent) = to_provider (d ∷ ds) _ refl (rw (e, send_to_companion) at h) in
          let all_same : All (λ (x : Device). x.provider_companion_id ≡ d.provider_companion_id)
              (d ∷ ds) =
            (refl, same_ids d.provider_companion_id ds e) in
          let is : d.provider_companion_id ≡ p.provider_companion_id = sym (
            Among-All d.provider_companion_id p (d ∷ ds) (Among-of_OnlyOne _ p (d ∷ ds) one)
              all_same) in
          (
            p,
            (
              one,
              All-trans d.provider_companion_id p.provider_companion_id (d ∷ ds) is all_same,
              is_sent,
            ),
          )
      go (id ∷ ids) e h = cc (rw (e, send_to_companion) at h)

  not_offline : (p : Device) → not (is_offline p.status) ≡ true → is_offline p.status ≡ false
  not_offline p h = ground (arith, h)

  -- If a command to a companion is handed to the command port: the first read of the directory lists
  -- exactly one device, not offline, of that one companion that provides the capability, and the
  -- command passed every check of the service, with the version asked for and the id of that provider
  -- as target. The device of the command is the one that this id selects in the second read, which
  -- need not be the provider if the provider is no longer listed.
  pub send_companion-IsProvider :
      send_companion_capability sdk devices again target version r ≡ sent c
      → (p : Device) × IsProvider sdk devices target r.op version p
        × IsChecked sdk again p.device_id (record r { capability_version = some version }) c
  unfolding send_companion_capability
  send_companion-IsProvider h =
      let (p, (one, same, is_sent)) =
        to_companion (candidates sdk target devices) (unfold candidates in h) in
      let among = Among-of_OnlyOne _ p (candidates sdk target devices) one in
      let (visible, named) =
        Among-keep_if (is_companion sdk target) p (list_devices false devices)
          (unfold candidates in among) in
      let (listed, awake) =
        Among-keep_if (λ (d : Device). not (is_offline d.status)) p devices
          (unfold list_devices in visible) in
      (
        p,
        record {
          listed = listed;
          awake = not_offline p awake;
          named = named;
          capable = OnlyOne-test _ p (candidates sdk target devices) one;
          only = one;
          one_companion = same;
        },
        send_command-IsChecked sdk again p.device_id
            (record r { capability_version = some version }) c is_sent,
      )
