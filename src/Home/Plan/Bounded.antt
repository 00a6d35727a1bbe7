-- ===== src/Home/Plan/Bounded.antt =====
-- What a plan for devices holds.
use eidolon_agent.Base.{
  ◌≤◌, ◌≡◌, inl, inr, refl, sym, ap, ◌∙◌, true, Option, none, some, List, [], ◌∷◌, String, map,
  arith, leb, length, All, Bool-cases, Option-cases,
}
use eidolon_agent.Home.Plan.{
  HomeDevice, Action, HomeCommand, HomeSdk, Target, Plan, Planned, planned, refused, target_of,
  all_commands, or_too_many, over_limit, checked_command, device_command, plan_target, bounded,
  plan_devices,
}

-- A command that a target has: it is for the target's device, and the SDK accepts it.
pub record IsAccepted (sdk : HomeSdk) (t : Target) (c : HomeCommand) : Type 0 where
  pub own_device : c.device_id ≡ t.device_id
  pub formed : sdk.well_formed c ≡ true
  pub allowed : sdk.refusal t.kind c ≡ none

-- A target is rejected and has no command, or has one accepted command.
abbrev pub Settled : HomeSdk → Target → Option String → List HomeCommand → Type 0
Settled sdk t (some code) [] = Unit
Settled sdk t none (c ∷ []) = IsAccepted sdk t c
Settled sdk t _ _ = ⊥

abbrev pub target_ids : List Target → List String
target_ids ts = map (λ (t : Target). t.device_id) ts

-- A plan for devices: a target for each of them, in order, each settled; the commands are those
-- of the targets, no more than the limit.
pub record IsPlan (sdk : HomeSdk) (devices : List HomeDevice) (plan : Plan) : Type 0 where
  pub ids : target_ids plan.targets ≡ map (λ (d : HomeDevice). d.device_id) devices
  pub settled : All (λ (t : Target). Settled sdk t t.rejected t.commands) plan.targets
  pub same_commands : plan.commands ≡ all_commands plan.targets
  pub in_limit : length plan.commands ≤ sdk.max_commands

module _ (sdk : HomeSdk) (choose : HomeDevice → Option Action) where
  checked_command-IsAccepted :
      (d : HomeDevice) (c out : HomeCommand)
      → c.device_id ≡ d.device_id
      → checked_command sdk d c ≡ planned out
      → IsAccepted sdk (target_of d (out ∷ []) none) out
  unfolding checked_command
  checked_command-IsAccepted d c out own h = elim (Bool-cases (sdk.well_formed c)) [
    | inr bad ↦ cc (rw bad at h)
    | inl formed ↦ elim (Option-cases (sdk.refusal d.kind c)) [
      | inr (code, banned) ↦ cc (rw (formed, banned) at h)
      | inl allowed ↦
          let is : c ≡ out = cc (rw (formed, allowed) at h) in
          record {
            own_device = ap (λ (x : HomeCommand). x.device_id) (sym is) ∙ own;
            formed = ap sdk.well_formed (sym is) ∙ formed;
            allowed = ap (sdk.refusal d.kind) (sym is) ∙ allowed;
          }
    ]
  ]

  device_command-IsAccepted :
      (d : HomeDevice) (a : Action) (out : HomeCommand)
      → device_command sdk d a ≡ planned out
      → IsAccepted sdk (target_of d (out ∷ []) none) out
  unfolding device_command
  device_command-IsAccepted d a out h = elim (Option-cases (sdk.params_spec a.trait a.command)) [
    | inl missing ↦ cc (rw (missing, device_command) at h)
    | inr (spec, e) ↦ checked_command-IsAccepted d _ out refl (rw (e, device_command) at h)
  ]

  target-Settled :
      (d : HomeDevice)
      → let t = plan_target sdk choose d in
        (t.device_id ≡ d.device_id) × Settled sdk t t.rejected t.commands
  unfolding plan_target
  target-Settled d = elim (Option-cases (choose d)) [
    | inl none_chosen ↦ rw (none_chosen, plan_target) (refl, tt)
    | inr (a, chosen) ↦ by_command a chosen (device_command sdk d a) refl
  ]
    where
      by_command :
          (a : Action)
          → choose d ≡ some a
          → (o : Planned HomeCommand) → device_command sdk d a ≡ o
          → let t = plan_target sdk choose d in
            (t.device_id ≡ d.device_id) × Settled sdk t t.rejected t.commands
      by_command a chosen (refused code) e = rw (chosen, e, plan_target) (refl, tt)
      by_command a chosen (planned c) e =
          rw (chosen, e, plan_target) (refl, device_command-IsAccepted d a c e)

  targets-Settled :
      (devices : List HomeDevice)
      → (target_ids (map (plan_target sdk choose) devices)
          ≡ map (λ (d : HomeDevice). d.device_id) devices)
        × All
            (λ (t : Target). Settled sdk t t.rejected t.commands)
            (map (plan_target sdk choose) devices)
  targets-Settled [] = (refl, tt)
  targets-Settled (d ∷ ds) =
      let (id, settled) = target-Settled d in
      let (ids, rest) = targets-Settled ds in (λ i. id i ∷ ids i, (settled, rest))

over-Settled :
    (sdk : HomeSdk) (ts : List Target)
    → (target_ids (map over_limit ts) ≡ target_ids ts)
      × All (λ (t : Target). Settled sdk t t.rejected t.commands) (map over_limit ts)
      × (all_commands (map over_limit ts) ≡ [])
over-Settled sdk [] = (refl, tt, refl)
over-Settled sdk (t ∷ ts) =
    let (ids, settled, empty) = over-Settled sdk ts in
    (λ i. t.device_id ∷ ids i, (settled_over t.rejected, settled), empty)
  where
    settled_over : (o : Option String) → Settled sdk (over_limit t) (or_too_many o) []
    settled_over none = tt
    settled_over (some code) = tt

-- A plan for devices has a target for each device, in their order; a target has one command, for
-- its own device and accepted by the SDK, or is rejected; and there are never more commands than
-- one request may carry: over the limit every target is rejected.
pub plan_devices-IsPlan :
    (sdk : HomeSdk) (devices : List HomeDevice) (choose : HomeDevice → Option Action)
    → IsPlan sdk devices (plan_devices sdk devices choose)
unfolding plan_devices bounded
plan_devices-IsPlan sdk devices choose =
    let ts = map (plan_target sdk choose) devices in
    let (ids, settled) = targets-Settled sdk choose devices in
    let (same_ids, over, empty) = over-Settled sdk ts in
    elim (Bool-cases (leb (length (all_commands ts)) sdk.max_commands)) [
      | inl within ↦ rw within (record {
        ids = ids;
        settled = settled;
        same_commands = refl;
        in_limit = ground (arith, within);
      })
      | inr above ↦ rw above (record {
        ids = same_ids ∙ ids;
        settled = over;
        same_commands = sym empty;
        in_limit = omega arith;
      })
    ]
