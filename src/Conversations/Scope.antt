-- ===== src/Conversations/Scope.antt =====
-- The tests of `_verify_conversation_scope` against the scope that a conversation belongs to.
use eidolon_agent.Base.{
  ℕ, ◌≡◌, refl, sym, ap, ◌∙◌, Bool, true, false, not, ◌||◌, Option, none, String, arith, is_some,
  Bool-cases, ◌↔◌, ◌⊎◌, some, eq_iff, inl, inr, if◌then◌else◌,
}
use eidolon_agent.Conversations.{TurnInput}
use eidolon_agent.Conversations.Guard.{
  one_session, ScopeFacts, row_facts, input_facts, is_shared, is_personal, compare_scope,
  conversation_metadata, claimed_row, is_shared_input, full_metadata,
}
use eidolon_agent.Conversations.Same.{
  require_iff, same_room_iff, bound_tests_iff, SameRoom, SameIdentity, SameBound,
}

-- Whose a conversation is: a room's, of the signed device and session; a companion's with an Owner
-- who is not told apart; or a Person's, in one session on one device.
pub data Scope : Type 0 where
  room : String → String → Option String → Option String → Option String → Scope
  plain : String → String → Option String → Bool → Bool → Scope
  personal :
      String
      → String
      → Option String
      → Bool
      → Bool
      → Bool
      → Option String
      → Option ℕ
      → Option ℕ
      → Option String
      → Option String
      → Scope

abbrev pub scope : ScopeFacts → Scope
scope f =
    if is_shared f
    then room f.owner f.companion f.device f.source f.session
    else (if is_personal f
        then personal f.owner f.companion f.realm f.enabled f.save f.recall f.person f.epoch
            f.revision f.session f.device
        else plain f.owner f.companion f.realm f.save f.recall)

module _ (f g : ScopeFacts) where
  room_at : is_shared f ≡ true → scope f ≡ room f.owner f.companion f.device f.source f.session
  room_at t = rw t refl

  plain_at :
      is_shared f ≡ false
      → is_personal f ≡ false
      → scope f ≡ plain f.owner f.companion f.realm f.save f.recall
  plain_at t p = rw (t, p) refl

  personal_at :
      is_shared f ≡ false
      → is_personal f ≡ true
      → scope f
        ≡ personal f.owner f.companion f.realm f.enabled f.save f.recall f.person f.epoch f.revision
            f.session f.device
  personal_at t p = rw (t, p) refl

  enabled_of : (f : ScopeFacts) → is_personal f ≡ false → (f.enabled ≡ true) × (f.person ≡ none)
  enabled_of f p = ground arith

  shared_same : SameRoom f g → is_shared f ≡ is_shared g
  shared_same (_, _, _, s, t) =
      ap (λ z. one_session z f.session) s ∙ ap (λ z. one_session g.source z) t

  personal_same : f.person ≡ g.person → f.enabled ≡ g.enabled → is_personal f ≡ is_personal g
  personal_same n e = ap (λ z. is_some z || not f.enabled) n ∙ ap (λ z. is_some g.person || not z) e

module _ (f g : ScopeFacts) where
  rooms_agree : is_shared g ≡ true → SameRoom f g → scope f ≡ scope g
  rooms_agree t r = cc (room_at f g (shared_same f g r ∙ t), room_at g g t)

  bounds_agree : is_shared f ≡ false → is_shared g ≡ false → SameBound f g → scope f ≡ scope g
  bounds_agree tf tg b =
      let same = personal_same f g b.6 b.5 in
      elim (Bool-cases (is_personal g)) [
        | inl p ↦ elim b.7 [
          | inl q ↦ absurd (cc)
          | inr i ↦ cc (personal_at f g tf (same ∙ p), personal_at g g tg p)
        ]
        | inr p ↦ cc (plain_at f g tf (same ∙ p), plain_at g g tg p)
      ]

  compare_scope_agree : compare_scope f g ≡ none → scope f ≡ scope g
  unfolding compare_scope
  compare_scope_agree h = elim (Bool-cases (is_shared g)) [
    | inl tg ↦ rooms_agree tg ((same_room_iff f g).0 ((require_iff _ _ _).0 (rw tg at h)).0)
    | inr tg ↦ elim (Bool-cases (is_shared f)) [
      | inl tf ↦ absurd (ground arith)
      | inr tf ↦ bounds_agree tf tg ((bound_tests_iff f g).0 (rw (tg, tf) at h))
    ]
  ]

  rooms_apart : is_shared g ≡ true → scope f ≡ scope g → SameRoom f g
  rooms_apart t e = elim (Bool-cases (is_shared f)) [
    | inl s ↦ let k = sym (room_at f g s) ∙ e ∙ room_at g g t in (cc k, cc k, cc k, cc k, cc k)
    | inr s ↦ elim (Bool-cases (is_personal f)) [
      | inl p ↦ absurd (cc (sym (personal_at f g s p) ∙ e ∙ room_at g g t))
      | inr p ↦ absurd (cc (sym (plain_at f g s p) ∙ e ∙ room_at g g t))
    ]
  ]

  bounds_apart : is_shared g ≡ false → scope f ≡ scope g → (is_shared f ≡ false) × SameBound f g
  bounds_apart t e = elim (Bool-cases (is_personal g)) [
    | inl q ↦ elim (Bool-cases (is_shared f)) [
      | inl s ↦ absurd (cc (sym (room_at f g s) ∙ e ∙ personal_at g g t q))
      | inr s ↦ elim (Bool-cases (is_personal f)) [
        | inl p ↦
            let k = sym (personal_at f g s p) ∙ e ∙ personal_at g g t q in
            (s, (cc k, cc k, cc k, cc k, cc k, cc k, cc k, inr (cc k, cc k, cc k, cc k)))
        | inr p ↦ absurd (cc (sym (plain_at f g s p) ∙ e ∙ personal_at g g t q))
      ]
    ]
    | inr q ↦ elim (Bool-cases (is_shared f)) [
      | inl s ↦ absurd (cc (sym (room_at f g s) ∙ e ∙ plain_at g g t q))
      | inr s ↦ elim (Bool-cases (is_personal f)) [
        | inl p ↦ absurd (cc (sym (personal_at f g s p) ∙ e ∙ plain_at g g t q))
        | inr p ↦
            let k = sym (plain_at f g s p) ∙ e ∙ plain_at g g t q in
            let (fe, fp) = enabled_of f g f p in
            let (ge, gp) = enabled_of f g g q in
            (s, (cc k, cc k, cc k, cc k, cc k, fe ∙ sym ge, fp ∙ sym gp, inl q))
      ]
    ]
  ]

  -- A row's conversation is open to an input exactly when both have one scope.
  pub compare_scope_iff : (compare_scope f g ≡ none) ↔ (scope f ≡ scope g)
  unfolding compare_scope
  compare_scope_iff = (
    compare_scope_agree,
    λ e. elim (Bool-cases (is_shared g)) [
      | inl t ↦ rw t ((require_iff _ _ _).1 ((same_room_iff f g).1 (rooms_apart t e), refl))
      | inr t ↦ let (s, b) = bounds_apart t e in rw (t, s) ((bound_tests_iff f g).1 b)
    ],
  )

  -- The device of an input of the scope is no other than that of the scope, where it has one.
  pub scope-refresh : scope f ≡ scope g → scope (record f { device = g.device }) ≡ scope f
  scope-refresh e = elim (Bool-cases (is_shared f)) [
    | inl t ↦ elim (Bool-cases (is_shared g)) [
      | inl u ↦
          let d : f.device ≡ g.device = (rooms_apart u e).2 in
          rw (t) (ap (λ z. room f.owner f.companion z f.source f.session) (sym d))
      | inr u ↦ absurd (cc ((bounds_apart u e).0))
    ]
    | inr t ↦ elim (Bool-cases (is_personal f)) [
      | inl p ↦ elim (Bool-cases (is_shared g)) [
        | inl u ↦ absurd (cc (shared_same f g (rooms_apart u e)))
        | inr u ↦
            let (_, b) = bounds_apart u e in
            let same = personal_same f g b.6 b.5 in
            elim b.7 [
              | inl q ↦ absurd (cc)
              | inr i ↦
                  rw (t, p)
                    (ap
                      (λ z.
                        personal f.owner f.companion f.realm f.enabled f.save f.recall f.person
                          f.epoch f.revision f.session z)
                      (sym i.3))
            ]
      ]
      | inr p ↦ rw (t, p) refl
    ]
  ]

-- Two inputs speak in one room: the session is that of their source, and Owner, companion, device
-- and session agree.
abbrev pub InOneRoom : ScopeFacts → ScopeFacts → Type 0
InOneRoom f g = (g.source ≡ g.session) × SameRoom f g

-- Or they have one Owner, companion, realm, Person and memory policy; and where there is a Person,
-- or the memory is disabled, also one epoch, revision, session and device.
abbrev pub InOneTalk : ScopeFacts → ScopeFacts → Type 0
InOneTalk f g =
    (f.owner ≡ g.owner)
    × (f.companion ≡ g.companion)
    × (f.realm ≡ g.realm)
    × (f.save ≡ g.save)
    × (f.recall ≡ g.recall)
    × (f.enabled ≡ g.enabled)
    × (f.person ≡ g.person)
    × (((g.person ≡ none) × (g.enabled ≡ true)) ⊎ SameIdentity f g)

one_session_same : (a b : Option String) → one_session a b ≡ true → a ≡ b
one_session_same none b h = absurd (cc)
one_session_same (some a) none h = absurd (cc)
one_session_same (some a) (some b) h = ap some ((eq_iff a b).0 h)

-- What inputs of one scope have in common.
pub scope_parts : (f g : ScopeFacts) → scope f ≡ scope g → InOneRoom f g ⊎ InOneTalk f g
scope_parts f g e = elim (Bool-cases (is_shared g)) [
  | inl t ↦ inl (one_session_same g.source g.session t, rooms_apart f g t e)
  | inr t ↦
      let (_, (o, c, r, s, q, n, p, i)) = bounds_apart f g t e in
      inr (
        o,
        c,
        r,
        s,
        q,
        n,
        p,
        elim i [
          | inl plainly ↦ let (en, pe) = enabled_of g g g plainly in inl (pe, en)
          | inr same ↦ inr same
        ],
      )
]

-- The row that the guard inserts has the scope of its input.
pub scope-claimed_row :
    (ti : TurnInput) (now : ℕ) → scope (row_facts (claimed_row ti now)) ≡ scope (input_facts ti)
scope-claimed_row ti now = elim (Bool-cases (is_shared_input ti)) [
  | inl t ↦ rw (t, t) refl
  | inr t ↦
      let m : conversation_metadata ti ≡ full_metadata ti = rw t refl in
      ap (λ z. scope (row_facts (record (claimed_row ti now) { metadata = z }))) m
]
