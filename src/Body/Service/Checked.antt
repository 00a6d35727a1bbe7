-- ===== src/Body/Service/Checked.antt =====
-- What holds of every command that reaches the port.
use eidolon_agent.Base.{
  ◌≤◌, ◌≡◌, inl, inr, refl, sym, subst, true, false, ◌||◌, none, some, List, String, arith, str_mem,
  Bool-cases, Option-cases, ltb, strip,
}
use eidolon_agent.Body.Resolver.{
  Capability, Device, DeviceState, online, offline, unknown, Resolved, found, refused,
  resolve_body_device,
}
use eidolon_agent.Body.Resolver.Selection.{Among, Selected, Selected-Among, resolve-Selected}
use eidolon_agent.Body.Service.{
  Sdk, Request, Command, sent, list_devices, qos_choices, priority_choices, validate_choice,
  send_to, send_resolved, send_prioritized, send_qualified, send_command, is_unreachable,
}

-- A command that may be sent: its device is one of those listed, is the one that the target
-- selects, is online and supports the operation in the version that is sent; its payload fits the
-- capability's schema, its time to live is in range, and its modes are known ones. Owner,
-- companion, source and idempotency key are the request's.
pub record IsChecked (sdk : Sdk) (devices : List Device) (target : String) (r : Request)
    (c : Command) : Type 0 where
  pub device : Device
  pub listed : Among device devices
  pub selected : Selected sdk.lower devices r.source_device_id target device
  pub addressed : c.device_id ≡ device.device_id
  pub reachable : device.status ≡ online
  pub contract : Capability
  pub supported : sdk.capability device r.op r.capability_version ≡ some contract
  pub same_version : c.capability_version ≡ contract.version
  pub same_op : c.op ≡ r.op
  pub same_payload : c.payload ≡ r.payload
  pub fits : sdk.argument_error contract.input_schema c.payload ≡ none
  pub ttl : (1_000 ≤ c.ttl_ms) × (c.ttl_ms ≤ 600_000)
  pub known_qos : str_mem c.qos qos_choices ≡ true
  pub known_priority : str_mem c.priority priority_choices ≡ true
  pub same_owner : c.owner_id ≡ r.owner_id
  pub same_companion : c.companion_id ≡ r.companion_id
  pub same_key : c.idempotency_key ≡ r.idempotency_key

validate_choice_known :
    (value choice : String) (allowed : List String)
    → validate_choice value allowed ≡ some choice
    → str_mem choice allowed ≡ true
unfolding validate_choice
validate_choice_known value choice allowed h = elim (Bool-cases (str_mem (strip value) allowed)) [
  | inl y ↦
      let is : strip value ≡ choice = cc (rw y at h) in subst (λ s. str_mem s allowed ≡ true) is y
  | inr n ↦ cc (rw n at h)
]

reachable_online : (s : DeviceState) → is_unreachable s ≡ false → s ≡ online
reachable_online online h = refl
reachable_online offline h = cc h
reachable_online unknown h = cc h

abbrev command_at : Request → String → String → Device → Capability → Command
command_at r qos priority d contract = record {
  owner_id = r.owner_id;
  companion_id = r.companion_id;
  device_id = d.device_id;
  source_device_id = r.source_device_id;
  op = r.op;
  capability_version = contract.version;
  payload = r.payload;
  qos = qos;
  ttl_ms = r.ttl_ms;
  priority = priority;
  idempotency_key = r.idempotency_key;
}

module _ (sdk : Sdk) (r : Request) (qos priority : String) (d : Device) (c : Command) where
  -- The checks behind the resolution, and the command that they lead to.
  pub record Behind : Type 0 where
    pub reachable : d.status ≡ online
    pub contract : Capability
    pub supported : sdk.capability d r.op r.capability_version ≡ some contract
    pub fits : sdk.argument_error contract.input_schema r.payload ≡ none
    pub is : c ≡ command_at r qos priority d contract

  send_to-Behind : send_to sdk r qos priority d ≡ sent c → Behind
  unfolding send_to
  send_to-Behind h = elim (Option-cases (sdk.capability d r.op r.capability_version)) [
    | inl unsupported ↦ cc (rw (unsupported, send_to) at h)
    | inr (contract, supported) ↦ elim (Bool-cases (is_unreachable d.status)) [
      | inl off ↦ cc (rw (supported, off, send_to) at h)
      | inr on ↦ elim (Option-cases (sdk.argument_error contract.input_schema r.payload)) [
        | inr (message, bad) ↦ cc (rw (supported, on, bad, send_to) at h)
        | inl fits ↦
            let e = rw (supported, on, fits, send_to) at h in
            record {
              reachable = reachable_online d.status on;
              contract = contract;
              supported = supported;
              fits = fits;
              is = cc e;
            }
      ]
    ]
  ]

module _ (sdk : Sdk) (devices : List Device) (target : String) (r : Request) (c : Command) where
  checked :
      (qos priority : String) (d : Device)
      → str_mem qos qos_choices ≡ true
      → str_mem priority priority_choices ≡ true
      → (1_000 ≤ r.ttl_ms) × (r.ttl_ms ≤ 600_000)
      → resolve_body_device sdk.lower devices target r.source_device_id ≡ found d
      → Behind sdk r qos priority d c
      → IsChecked sdk devices target r c
  checked qos priority d known_qos known_priority ttl resolved b =
      let selected = resolve-Selected sdk.lower devices r.source_device_id target d resolved in
      record {
        device = d;
        listed = Selected-Among sdk.lower devices r.source_device_id target d selected;
        selected = selected;
        addressed = cc b.is;
        reachable = b.reachable;
        contract = b.contract;
        supported = b.supported;
        same_version = cc b.is;
        same_op = cc b.is;
        same_payload = cc b.is;
        fits =
            subst (λ (x : Command). sdk.argument_error b.contract.input_schema x.payload ≡ none)
              (sym b.is) b.fits;
        ttl = subst (λ (x : Command). (1_000 ≤ x.ttl_ms) × (x.ttl_ms ≤ 600_000)) (sym b.is) ttl;
        known_qos = subst (λ (x : Command). str_mem x.qos qos_choices ≡ true) (sym b.is) known_qos;
        known_priority =
            subst (λ (x : Command). str_mem x.priority priority_choices ≡ true) (sym b.is)
              known_priority;
        same_owner = cc b.is;
        same_companion = cc b.is;
        same_key = cc b.is;
      }

  at_device :
      (qos priority : String) (o : Resolved)
      → resolve_body_device sdk.lower devices target r.source_device_id ≡ o
      → str_mem qos qos_choices ≡ true
      → str_mem priority priority_choices ≡ true
      → (1_000 ≤ r.ttl_ms) × (r.ttl_ms ≤ 600_000)
      → send_resolved sdk r qos priority o ≡ sent c
      → IsChecked sdk devices target r c
  unfolding send_resolved
  at_device qos priority (refused e) is q p ttl h = cc h
  at_device qos priority (found d) is q p ttl h =
      checked qos priority d q p ttl is (send_to-Behind sdk r qos priority d c h)

  in_time :
      (qos priority : String)
      → str_mem qos qos_choices ≡ true
      → str_mem priority priority_choices ≡ true
      → send_prioritized sdk devices target r qos (some priority) ≡ sent c
      → IsChecked sdk devices target r c
  unfolding send_prioritized list_devices
  in_time qos priority q p h = elim (Bool-cases (ltb r.ttl_ms 1_000 || ltb 600_000 r.ttl_ms)) [
    | inl bad ↦ cc (rw (bad, send_prioritized) at h)
    | inr good ↦
        at_device qos priority (resolve_body_device sdk.lower devices target r.source_device_id)
          refl q p (ground (arith, good)) (rw (good, send_prioritized) at h)
  ]

  -- Every command that `send_command` hands to its port has passed all checks.
  pub send_command-IsChecked :
      send_command sdk devices target r ≡ sent c → IsChecked sdk devices target r c
  unfolding send_command send_qualified send_prioritized list_devices
  send_command-IsChecked h = elim (Option-cases (validate_choice r.qos qos_choices)) [
    | inl bad ↦ cc (rw (bad, send_command, send_qualified) at h)
    | inr (qos, q) ↦ elim (Option-cases (validate_choice r.priority priority_choices)) [
      | inl bad ↦ cc (rw (q, bad, send_command, send_qualified, send_prioritized) at h)
      | inr (priority, p) ↦
          in_time qos priority (validate_choice_known r.qos qos qos_choices q)
            (validate_choice_known r.priority priority priority_choices p)
            (rw (q, p, send_command, send_qualified) at h)
    ]
  ]
