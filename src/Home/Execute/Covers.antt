-- ===== src/Home/Execute/Covers.antt =====
-- What the outcomes of an execution say: of each device that something was sent to, and no other.
use eidolon_agent.Base.{
  ◌≡◌, ◌⊎◌, inl, inr, refl, sym, ap, ◌∙◌, subst, Bool, true, false, Option, none, some, List, [],
  ◌∷◌, ◌++◌, map, String, arith, if◌then◌else◌, ◌&&◌, str_eq, str_mem, eq_iff, keep_if, is_some,
  find_first, any, all, Bool-cases, Option-cases, append_assoc, append-nil,
}
use eidolon_agent.Base.Dict.{Dict, lookup, insert, lookup-insert}
use eidolon_agent.Home.Plan.{HomeCommand, Plan}
use eidolon_agent.Home.Execute.{
  Status, succeeded, failed, unknown, delegated, DeviceOutcome, unknown_outcome, CommandResult,
  Reply, Answer, answered, timed_out, unavailable, outcomes, is_failed, is_unknown, is_delegated,
  outcome_unfailed, outcome_of, or_nil, group_results, dict_of, expected_ids, all_unknown,
  read_results, read_answer,
}

abbrev pub is_succeeded : CommandResult → Bool
is_succeeded r = elim r.status [ succeeded ↦ true | _ ↦ false ]

abbrev pub is_for : String → CommandResult → Bool
is_for id r = str_eq r.device_id id

-- The dictionary of a comprehension.
lookup-dict_of :
    (f : String → DeviceOutcome) (ids : List String) (d : Dict DeviceOutcome) (j : String)
    → lookup j (dict_of f ids d) ≡ (if str_mem j ids then some (f j) else lookup j d)
lookup-dict_of f [] d j = refl
lookup-dict_of f (id ∷ ids) d j = ground (
  arith,
  lookup-dict_of f ids (insert id (f id) d) j,
  lookup-insert id j (f id) d,
  eq_iff j id,
  eq_iff id j,
)

-- The results of one device, in order.
lookup-group_results :
    (j : String) (rs : List CommandResult) (d : Dict (List CommandResult))
    → or_nil (lookup j (group_results d rs)) ≡ or_nil (lookup j d) ++ keep_if (is_for j) rs
unfolding group_results
lookup-group_results j [] d = sym (append-nil (or_nil (lookup j d)))
lookup-group_results j (r ∷ rs) d =
    let before = or_nil (lookup r.device_id d) in
    lookup-group_results j rs (insert r.device_id (before ++ r ∷ []) d)
    ∙ ap (λ o. or_nil o ++ keep_if (is_for j) rs) (lookup-insert r.device_id j (before ++ r ∷ []) d)
    ∙ elim (Bool-cases (str_eq r.device_id j)) [
      | inl e ↦
          let same = (eq_iff r.device_id j).0 e in
          rw e (
            append_assoc before (r ∷ []) (keep_if (is_for j) rs)
            ∙ ap (λ k. or_nil (lookup k d) ++ r ∷ keep_if (is_for j) rs) same)
      | inr e ↦ rw e refl
    ]

abbrev pub mapped : Option (List CommandResult) → Option DeviceOutcome
mapped none = none
mapped (some rs) = some (outcome_of rs)

-- The outcome of each group of results.
pub lookup-outcomes :
    (j : String) (d : Dict (List CommandResult))
    → lookup j (map (λ (e : String × List CommandResult). (e.0, outcome_of e.1)) d)
      ≡ mapped (lookup j d)
unfolding lookup
lookup-outcomes j [] = refl
lookup-outcomes j ((k, rs) ∷ d) = elim (Bool-cases (str_eq k j)) [
  | inl e ↦ rw e refl
  | inr e ↦ rw e (lookup-outcomes j d)
]

pub mapped-some :
    (g : Option (List CommandResult)) (o : DeviceOutcome)
    → mapped g ≡ some o
    → outcome_of (or_nil g) ≡ o
mapped-some none o h = cc h
mapped-some (some rs) o h = cc h

pub grouped :
    (j : String) (rs : List CommandResult)
    → or_nil (lookup j (group_results [] rs)) ≡ keep_if (is_for j) rs
unfolding lookup
grouped j rs = lookup-group_results j rs []

none_left :
    (rs : List CommandResult)
    → find_first is_failed rs ≡ none
    → any is_unknown rs ≡ false
    → keep_if is_delegated rs ≡ []
    → all is_succeeded rs ≡ true
none_left [] h k l = refl
none_left (r ∷ rs) h k l = by_status r.status refl (none_left rs)
  where
    by_status :
        (s : Status)
        → r.status ≡ s
        → (find_first is_failed rs ≡ none
            → any is_unknown rs ≡ false
            → keep_if is_delegated rs ≡ []
            → all is_succeeded rs ≡ true)
        → all is_succeeded (r ∷ rs) ≡ true
    by_status succeeded e rest = rw e (rest (rw e at h) (rw e at k) (rw e at l))
    by_status failed e rest = cc (rw e at h)
    by_status unknown e rest = cc (rw e at k)
    by_status delegated e rest = cc (rw e at l)

unfailed_succeeded :
    (rs : List CommandResult)
    → find_first is_failed rs ≡ none
    → (outcome_unfailed rs).status ≡ succeeded
    → (all is_succeeded rs ≡ true) × (any (λ r. true) rs ≡ true)
unfolding outcome_unfailed
unfailed_succeeded [] n h = cc h
unfailed_succeeded (r ∷ rs) n h = elim (Bool-cases (any is_unknown (r ∷ rs))) [
  | inl u ↦ cc (rw u at h)
  | inr u ↦ by_delegated (keep_if is_delegated (r ∷ rs)) refl u
]
  where
    by_delegated :
        (ds : List CommandResult)
        → keep_if is_delegated (r ∷ rs) ≡ ds
        → any is_unknown (r ∷ rs) ≡ false
        → (all is_succeeded (r ∷ rs) ≡ true) × (any (λ r. true) (r ∷ rs) ≡ true)
    by_delegated [] e u = (none_left (r ∷ rs) n u e, refl)
    by_delegated (d ∷ ds) e u = cc (rw (u, e) at h)

-- A device counts as succeeded only if there are results for it and all of them have succeeded.
pub outcome_of-succeeded :
    (rs : List CommandResult)
    → (outcome_of rs).status ≡ succeeded
    → (all is_succeeded rs ≡ true) × (any (λ r. true) rs ≡ true)
unfolding outcome_of
outcome_of-succeeded rs h = elim (Option-cases (find_first is_failed rs)) [
  | inr (f, e) ↦ cc (rw (e, outcome_of) at h)
  | inl e ↦ unfailed_succeeded rs e (rw (e, outcome_of) at h)
]

pub lookup-all_unknown :
    (plan : Plan) (os : Dict DeviceOutcome) (j : String)
    → all_unknown plan ≡ outcomes os
    → lookup j os ≡ (if str_mem j (expected_ids plan.targets) then some unknown_outcome else none)
unfolding lookup
lookup-all_unknown plan os j h =
    let is : dict_of (λ id. unknown_outcome) (expected_ids plan.targets) [] ≡ os = cc h in
    subst
      (λ d.
        lookup j d ≡ (if str_mem j (expected_ids plan.targets) then some unknown_outcome else none))
      is (lookup-dict_of (λ id. unknown_outcome) (expected_ids plan.targets) [] j)

-- The outcome that an answer leaves for the device `j`: what its results say of it, where the answer
-- is a reply to this request, without an error, that lines up; unknown, where it is another reply or
-- there is none.
abbrev pub Told :
    (List HomeCommand → Reply → Bool) → Plan → String → Answer → String → DeviceOutcome → Type 0
Told lines_up plan request_id (answered reply) j o =
    ((o ≡ unknown_outcome)
      × ((str_eq reply.request_id request_id && lines_up plan.commands reply) ≡ false))
    ⊎ ((reply.request_id ≡ request_id)
        × (reply.error ≡ none)
        × (lines_up plan.commands reply ≡ true)
        × (o ≡ outcome_of (keep_if (is_for j) reply.results)))
Told lines_up plan request_id timed_out j o = o ≡ unknown_outcome
Told lines_up plan request_id unavailable j o = ⊥

module _ (lines_up : List HomeCommand → Reply → Bool) (plan : Plan) (request_id j : String)
    (os : Dict DeviceOutcome) where
  -- An expected device has an outcome, which the answer tells, and no other has one.
  abbrev pub Covered : Answer → Type 0
  Covered a =
      if str_mem j (expected_ids plan.targets)
      then ((o : DeviceOutcome) × (lookup j os ≡ some o) × Told lines_up plan request_id a j o)
      else lookup j os ≡ none

module _ (lines_up : List HomeCommand → Reply → Bool) (plan : Plan) (request_id j : String)
    (os : Dict DeviceOutcome) (explicit : is_some plan.scene ≡ false) where
  unknown-Covered :
      (a : Answer)
      → Told lines_up plan request_id a j unknown_outcome
      → all_unknown plan ≡ outcomes os
      → Covered lines_up plan request_id j os a
  unknown-Covered a told h =
      let e = lookup-all_unknown plan os j h in
      elim (Bool-cases (str_mem j (expected_ids plan.targets))) [
        | inl wanted ↦ rw wanted (unknown_outcome, e ∙ rw wanted refl, told)
        | inr other ↦ rw other (e ∙ rw other refl)
      ]

  results-Covered :
      (reply : Reply)
      → reply.request_id ≡ request_id
      → reply.error ≡ none
      → read_results lines_up plan reply ≡ outcomes os
      → Covered lines_up plan request_id j os (answered reply)
  unfolding read_results lookup
  results-Covered reply same fine h = elim (Bool-cases (lines_up plan.commands reply)) [
    | inr crooked ↦
        unknown-Covered (answered reply) (inl (refl, ground (arith, crooked)))
          (rw (explicit, crooked, read_results) at h)
    | inl straight ↦ taken straight (rw (explicit, straight, read_results) at h)
  ]
    where
      taken :
          lines_up plan.commands reply ≡ true
          → outcomes (
              dict_of
                (λ id. outcome_of (or_nil (lookup id (group_results [] reply.results))))
                (expected_ids plan.targets)
                [])
            ≡ outcomes os
          → Covered lines_up plan request_id j os (answered reply)
      taken straight h =
          let f =
            λ (id : String). outcome_of (or_nil (lookup id (group_results [] reply.results))) in
          let is : dict_of f (expected_ids plan.targets) [] ≡ os = cc h in
          let e : lookup j os
              ≡ (if str_mem j (expected_ids plan.targets) then some (f j) else none) =
            subst
              (λ d.
                lookup j d ≡ (if str_mem j (expected_ids plan.targets) then some (f j) else none))
              is (lookup-dict_of f (expected_ids plan.targets) [] j) in
          elim (Bool-cases (str_mem j (expected_ids plan.targets))) [
            | inl wanted ↦ rw wanted (
              f j,
              e ∙ rw wanted refl,
              inr (same, fine, straight, ap outcome_of (lookup-group_results j reply.results [])),
            )
            | inr other ↦ rw other (e ∙ rw other refl)
          ]

  pub answer-Covered :
      (a : Answer)
      → read_answer lines_up plan request_id a ≡ outcomes os
      → Covered lines_up plan request_id j os a
  unfolding read_answer
  answer-Covered timed_out h = unknown-Covered timed_out refl h
  answer-Covered unavailable h = cc h
  answer-Covered (answered reply) h = elim (Bool-cases (str_eq reply.request_id request_id)) [
    | inr other ↦
        unknown-Covered (answered reply) (inl (refl, ground (arith, other)))
          (rw (other, read_answer) at h)
    | inl same ↦ elim (Option-cases reply.error) [
      | inr (code, e) ↦ cc (rw (same, e, read_answer) at h)
      | inl fine ↦
          results-Covered reply ((eq_iff reply.request_id request_id).0 same) fine
            (rw (same, fine, read_answer) at h)
    ]
  ]
