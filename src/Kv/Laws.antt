-- ===== src/Kv/Laws.antt =====
-- What a client of `InMemoryKVStore` reads: round trips of `put` and `get` with expiry, `delete`,
-- the outcome of `cas`, and the messages that reach a watcher.
use eidolon_agent.Base.{
  ℕ, ◌+◌, ◌≤◌, ◌≡◌, refl, true, Option, none, some, List, String, arith, leb, ◌==◌, if◌then◌else◌,
  str_eq, eq_iff, Option-cases, inl, inr, Bool-cases,
}
use eidolon_agent.Base.Dict.{lookup, insert, lookup-insert, lookup-erase}
use eidolon_agent.Kv.{
  Kv, Entry, Change, swapped, conflict, expired, expiry, get, put, delete, cas, current_rev, notify,
}

-- What an entry is worth to a reader at a time.
abbrev pub live : Option Entry → ℕ → Option String
live none now = none
live (some e) now = elim e.expires_at [
  | none ↦ some e.value
  | some t ↦ if leb t now then none else some e.value
]

pub get-live : (key : String) (now : ℕ) (s : Kv) → (get key now s).0 ≡ live (lookup key s.store) now
unfolding get
get-live key now s = ground arith

pub store-notify : (key : String) (c : Change) (s : Kv) → (notify key c s).store ≡ s.store
unfolding notify
store-notify key c s = refl

expired_later :
    (e : Entry) (now later : ℕ) → now ≤ later → expired e now ≡ true → live (some e) later ≡ none
unfolding expired
expired_later e now later h x = ground arith

-- A `get` may drop an expired entry; no read at that time or later sees the difference.
pub get_unobserved :
    (key j : String) (now later : ℕ) (s : Kv)
    → now ≤ later
    → (get j later (get key now s).1).0 ≡ (get j later s).0
get_unobserved key j now later s h = simp get-live (elim (Option-cases (lookup key s.store)) [
  | inl e ↦ unfold get in ground (arith, lookup-erase key j s.store, eq_iff key j, e)
  | inr (x, e) ↦ unfold get expired in ground (arith, lookup-erase key j s.store, eq_iff key j, e)
])

-- After a `put` the key reads as the value until its expiry and as nothing from then on; what is
-- read of any other key is as before.
pub get-put :
    (key j value : String) (ttl : Option ℕ) (now later : ℕ) (s : Kv)
    → (get j later (put key value ttl now s).1).0 ≡ (
        if str_eq key j
        then elim (expiry ttl now) [
          | none ↦ some value
          | some t ↦ if leb t later then none else some value
        ]
        else (get j later s).0)
unfolding put
get-put key j value ttl now later s =
    simp (get-live, store-notify, lookup-insert) (ground (arith, eq_iff key j))

-- A deleted key reads as nothing, and any other as before.
pub get-delete :
    (key j : String) (now : ℕ) (s : Kv)
    → (get j now (delete key s)).0 ≡ (if str_eq key j then none else (get j now s).0)
unfolding delete
get-delete key j now s = simp (get-live, store-notify, lookup-erase) (ground (arith, eq_iff key j))

-- What `cas` promises: at the expected revision it writes the value with the next revision and no
-- expiry, and no other key changes; at another it reports both revisions and changes nothing.
abbrev pub CasPromise : String → String → ℕ → Kv → Type 0
CasPromise key value expected s =
    if current_rev key s.store == expected
    then ((cas key value expected s).0 ≡ swapped (expected + 1))
      × (current_rev key (cas key value expected s).1.store ≡ expected + 1)
      × ((j : String) (now : ℕ)
          → (get j now (cas key value expected s).1).0
            ≡ (if str_eq key j then some value else (get j now s).0))
    else cas key value expected s ≡ (conflict expected (current_rev key s.store), s)

pub current_rev-insert :
    (key j : String) (e : Entry) (d : List (String × Entry))
    → current_rev j (insert key e d) ≡ (if str_eq key j then e.revision else current_rev j d)
unfolding current_rev
current_rev-insert key j e d = ground (arith, lookup-insert key j e d, eq_iff key j)

get-notify-insert :
    (key j : String) (e : Entry) (c : Change) (now : ℕ) (s : Kv)
    → (get j now (notify key c (record s { store = insert key e s.store }))).0
      ≡ (if str_eq key j then live (some e) now else (get j now s).0)
get-notify-insert key j e c now s =
    simp (get-live, store-notify, lookup-insert) (ground (arith, eq_iff key j))

-- A `cas` keeps its promise, on either branch.
pub cas-CasPromise : (key value : String) (expected : ℕ) (s : Kv) → CasPromise key value expected s
unfolding cas
cas-CasPromise key value expected s = elim (Bool-cases (current_rev key s.store == expected)) [
  | inl e ↦ rw e (
    ground arith,
    simp (store-notify, current_rev-insert) (ground (arith, eq_iff key key)),
    λ j now. get-notify-insert key j _ _ now s,
  )
  | inr e ↦ rw e refl
]
