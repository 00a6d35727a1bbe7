-- ===== src/Kv.antt =====
-- The key-value store of eidolon_agent/infra/events/adapters/inmem.py: revisions, expiry,
-- compare-and-set and watchers. The clock is read by the caller, in microseconds, and is an argument.
pub mod Laws
pub mod Races
mod Tests
use eidolon_agent.Base.{
  ℕ, ◌+◌, ◌*◌, Bool, true, false, not, ◌&&◌, Option, none, some, List, [], ◌∷◌, ◌++◌, String, map,
  leb, ◌==◌, if◌then◌else◌, starts_with, keep_if, or_else, str_eq,
}
use eidolon_agent.Base.Dict.{Dict, lookup, insert, erase}
use eidolon_agent.Bus.Glob.{matches}

-- `_KVEntry`
pub record Entry : Type 0 where
  pub value : String
  pub revision : ℕ
  pub expires_at : Option ℕ

-- What a watcher receives beside the key: a value and its revision, or `(None, -1)`.
pub data Change : Type 0 where
  written : String → ℕ → Change
  removed : Change

-- An `asyncio.Queue` of `watch`, with the number by which this one is told from others.
pub record Queue : Type 0 where
  pub id : ℕ
  pub items : List (String × Change)

pub record Kv : Type 0 where
  pub store : Dict Entry
  pub watchers : List (String × List Queue)
  pub next_queue : ℕ

-- `__init__`
abbrev pub init : Kv
init = record { store = []; watchers = []; next_queue = 0 }

pub data CasResult : Type 0 where
  swapped : ℕ → CasResult
  conflict : ℕ → ℕ → CasResult

-- `_expired`
unfoldable pub expired : Entry → ℕ → Bool
expired e now = elim e.expires_at [ none ↦ false | some t ↦ leb t now ]

abbrev push : String → Change → Queue → Queue
push key change q = record q { items = q.items ++ (key, change) ∷ [] }

unfoldable pub notify_all :
    String → Change → List (String × List Queue) → List (String × List Queue)
notify_all key change [] = []
notify_all key change ((pattern', qs) ∷ ws) =
    (pattern', if matches pattern' key then map (push key change) qs else qs)
    ∷ notify_all key change ws

-- `_notify`
unfoldable pub notify : String → Change → Kv → Kv
unfolding notify_all
notify key change s = record s { watchers = notify_all key change s.watchers }

-- A missing or an expired entry is popped.
unfoldable pub get : String → ℕ → Kv → Option String × Kv
unfolding expired
get key now s = elim (lookup key s.store) [
  | none ↦ (none, record s { store = erase key s.store })
  | some e ↦
      if expired e now then (none, record s { store = erase key s.store }) else (some e.value, s)
]

notify_removed : List String → Kv → Kv
notify_removed [] s = s
notify_removed (key ∷ keys) s = notify_removed keys (notify key removed s)

pub clear : Kv → Kv
unfolding notify_removed
clear s = notify_removed (map (λ e. e.0) s.store) (record s { store = [] })

-- The revision of the entry that `store` holds, expired or not; 0 without one.
unfoldable pub current_rev : String → Dict Entry → ℕ
current_rev key d = elim (lookup key d) [ none ↦ 0 | some e ↦ e.revision ]

-- `ttl_s` of 0 is no expiry, as for None.
abbrev pub expiry : Option ℕ → ℕ → Option ℕ
expiry none now = none
expiry (some ttl) now = if ttl == 0 then none else some (now + ttl * 1_000_000)

unfoldable pub put : String → String → Option ℕ → ℕ → Kv → ℕ × Kv
unfolding current_rev
put key value ttl now s =
    let rev = current_rev key s.store + 1 in
    let entry : Entry = record { value = value; revision = rev; expires_at = expiry ttl now } in
    (rev, notify key (written value rev) (record s { store = insert key entry s.store }))

unfoldable pub delete : String → Kv → Kv
delete key s = notify key removed (record s { store = erase key s.store })

unfoldable pub cas : String → String → ℕ → Kv → CasResult × Kv
unfolding current_rev
cas key value expected s =
    let current = current_rev key s.store in
    let rev = current + 1 in
    let entry : Entry = record { value = value; revision = rev; expires_at = none } in
    if current == expected
    then (
      swapped rev,
      notify key (written value rev) (record s { store = insert key entry s.store }),
    )
    else (conflict expected current, s)

pub keys : String → ℕ → Kv → List String
unfolding expired
keys prefix now s =
    map (λ e. e.0) (keep_if (λ e. starts_with e.0 prefix && not (expired e.1 now)) s.store)

append_queue : String → Queue → List (String × List Queue) → List (String × List Queue)
append_queue pattern' q [] = (pattern', q ∷ []) ∷ []
append_queue pattern' q ((p, qs) ∷ ws) =
    if str_eq p pattern' then (p, qs ++ q ∷ []) ∷ ws else (p, qs) ∷ append_queue pattern' q ws

-- `watch` up to its first `yield`: registers a queue, and returns its number.
pub watch : String → Kv → ℕ × Kv
unfolding append_queue
watch pattern' s =
    let q : Queue = record { id = s.next_queue; items = [] } in
    (
      s.next_queue,
      record s { watchers = append_queue pattern' q s.watchers; next_queue = s.next_queue + 1 },
    )

drop_queue : String → ℕ → List (String × List Queue) → List (String × List Queue)
drop_queue pattern' id [] = []
drop_queue pattern' id ((p, qs) ∷ ws) =
    let kept = keep_if (λ (q : Queue). not (q.id == id)) qs in
    let rest = drop_queue pattern' id ws in
    if str_eq p pattern'
    then elim kept [ [] ↦ ws | q ∷ others ↦ (p, q ∷ others) ∷ ws ]
    else (p, qs) ∷ rest

-- The `finally` of `watch`.
pub unwatch : String → ℕ → Kv → Kv
unfolding drop_queue
unwatch pattern' id s = record s { watchers = drop_queue pattern' id s.watchers }
