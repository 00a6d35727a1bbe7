-- ===== src/Session/Config/Accepted.antt =====
-- What an accepted runtime configuration guarantees.
use eidolon_agent.Base.{
  ℕ, zero, suc, ◌≤◌, ◌≡◌, refl, subst, false, Option, none, some, List, ◌∷◌, String, arith, str_eq,
  strip, All, Bool-cases, some_inj, inl, inr,
}
use eidolon_agent.Base.Json.{
  Json, Items, null, int, str, array, object, no_items, item, lookup_field,
}
use eidolon_agent.Session.Config.{
  Config, ◌>>=◌, read_limit, read_identifiers, identifier_set, read_model, read_tools,
  read_temperature, read_flag, from_authority,
}

abbrev pub IsLimit : Option ℕ → Type 0
IsLimit none = Unit
IsLimit (some n) = 1 ≤ n

abbrev pub IsNamed : Option String → Type 0
IsNamed none = Unit
IsNamed (some m) = str_eq m "" ≡ false

-- No blank names among the tools, a model that is not blank, and limits above 0.
pub record IsSane (c : Config) : Type 0 where
  pub allow_named : All (λ s. str_eq s "" ≡ false) c.tool_allow
  pub deny_named : All (λ s. str_eq s "" ≡ false) c.tool_deny
  pub model_named : IsNamed c.model
  pub iters_limit : IsLimit c.max_tool_iters
  pub tokens_limit : IsLimit c.max_output_tokens

bind_inv {ℓ κ} :
    {A : Type ℓ} {B : Type κ} (m : Option A) (f : A → Option B) {b : B}
    → (m >>= f) ≡ some b
    → (a : A) × (m ≡ some a) × (f a ≡ some b)
bind_inv none f h = cc
bind_inv (some a) f h = (a, refl, h)

read_limit-IsLimit : (o : Option Json) (n : Option ℕ) → read_limit o ≡ some n → IsLimit n
unfolding read_limit
read_limit-IsLimit none n h = subst IsLimit (some_inj h) tt
read_limit-IsLimit (some null) n h = subst IsLimit (some_inj h) tt
read_limit-IsLimit (some (int zero)) n h = cc h
read_limit-IsLimit (some (int (suc m))) n h =
    let is : some (suc m) ≡ n = cc h in subst IsLimit is (omega arith)
read_limit-IsLimit (some _) n h = cc h

read_identifiers_named :
    (xs : Items) (ids : List String)
    → read_identifiers xs ≡ some ids
    → All (λ s. str_eq s "" ≡ false) ids
unfolding read_identifiers
read_identifiers_named no_items ids h = subst (All _) (some_inj h) tt
read_identifiers_named (item (str s) xs) ids h =
    let (rest, e, f) = bind_inv (read_identifiers xs) _ h in
    elim (Bool-cases (str_eq (strip s) "")) [
      | inl blank ↦ cc (rw blank at f)
      | inr named ↦
          let is : strip s ∷ rest ≡ ids = cc (rw named at f) in
          subst (All _) is (named, read_identifiers_named xs rest e)
    ]
read_identifiers_named (item _ xs) ids h = cc h

identifier_set_named :
    (o : Option Json) (ids : List String)
    → identifier_set o ≡ some ids
    → All (λ s. str_eq s "" ≡ false) ids
unfolding identifier_set
identifier_set_named none ids h = subst (All _) (some_inj h) tt
identifier_set_named (some null) ids h = subst (All _) (some_inj h) tt
identifier_set_named (some (array xs)) ids h = read_identifiers_named xs ids h
identifier_set_named (some _) ids h = cc h

read_model-IsNamed :
    (o : Option Json) (model : Option String) → read_model o ≡ some model → IsNamed model
unfolding read_model
read_model-IsNamed none model h = subst IsNamed (some_inj h) tt
read_model-IsNamed (some null) model h = subst IsNamed (some_inj h) tt
read_model-IsNamed (some (str s)) model h = elim (Bool-cases (str_eq (strip s) "")) [
  | inl blank ↦ cc (rw blank at h)
  | inr named ↦ let is : some (strip s) ≡ model = cc (rw named at h) in subst IsNamed is named
]
read_model-IsNamed (some _) model h = cc h

-- A configuration that is accepted has no blank tool name and no blank model, and its limits are
-- above 0.
pub from_authority-IsSane : (raw : Json) (c : Config) → from_authority raw ≡ some c → IsSane c
unfolding from_authority
from_authority-IsSane (object raw) c h =
    let (model, e₁, h₁) = bind_inv (read_model (lookup_field "model" raw)) _ h in
    let (temperature, e₂, h₂) = bind_inv (read_temperature (lookup_field "temperature" raw)) _ h₁ in
    let (tools, e₃, h₃) = bind_inv (read_tools (lookup_field "tools" raw)) _ h₂ in
    let (allow, e₄, h₄) = bind_inv (identifier_set (lookup_field "allow" tools)) _ h₃ in
    let (deny, e₅, h₅) = bind_inv (identifier_set (lookup_field "deny" tools)) _ h₄ in
    let (flag, e₆, h₆) = bind_inv (read_flag (lookup_field "allow_body_control" tools)) _ h₅ in
    let (iters, e₇, h₇) = bind_inv (read_limit (lookup_field "max_tool_iters" raw)) _ h₆ in
    let (tokens, e₈, h₈) = bind_inv (read_limit (lookup_field "max_output_tokens" raw)) _ h₇ in
    subst IsSane (some_inj h₈) (record {
      allow_named = identifier_set_named (lookup_field "allow" tools) allow e₄;
      deny_named = identifier_set_named (lookup_field "deny" tools) deny e₅;
      model_named = read_model-IsNamed (lookup_field "model" raw) model e₁;
      iters_limit = read_limit-IsLimit (lookup_field "max_tool_iters" raw) iters e₇;
      tokens_limit = read_limit-IsLimit (lookup_field "max_output_tokens" raw) tokens e₈;
    })
from_authority-IsSane _ c h = cc h
