-- ===== src/Kv/Races.antt =====
-- Clients that race on one key through `cas`, and runs of writes.
use eidolon_agent.Base.{
  ℕ, ◌+◌, ◌≡◌, ◌≢◌, refl, ap, true, false, not, ◌&&◌, Option, List, [], ◌∷◌, String, arith, ◌==◌,
  if◌then◌else◌, str_eq, eq_iff, eq_refl, inl, inr, Bool-cases, Option-cases, is_some,
}
use eidolon_agent.Base.Dict.{lookup, erase, lookup-erase}
use eidolon_agent.Kv.{
  Kv, CasResult, swapped, conflict, put, delete, cas, current_rev, watch, unwatch, removed, get,
}
use eidolon_agent.Kv.Laws.{current_rev-insert, store-notify}

current_rev-put :
    (key j value : String) (ttl : Option ℕ) (now : ℕ) (s : Kv)
    → current_rev j (put key value ttl now s).1.store
      ≡ current_rev j s.store + (if str_eq key j then 1 else 0)
unfolding put
current_rev-put key j value ttl now s =
    simp (store-notify, current_rev-insert) (ground (arith, eq_iff key j))

-- 1 if the call wrote.
abbrev wrote : CasResult → ℕ
wrote (swapped _) = 1
wrote (conflict _ _) = 0

current_rev-cas :
    (key j value : String) (expected : ℕ) (s : Kv)
    → current_rev j (cas key value expected s).1.store
      ≡ current_rev j s.store + (if str_eq key j then wrote (cas key value expected s).0 else 0)
unfolding cas
current_rev-cas key j value expected s = elim (Bool-cases (current_rev key s.store == expected)) [
  | inl e ↦ rw e (simp (store-notify, current_rev-insert) (ground (arith, eq_iff key j)))
  | inr e ↦ rw e (ground arith)
]

-- Calls that clients make in some order.
pub data Call : Type 0 where
  get_call : String → ℕ → Call
  put_call : String → String → Option ℕ → ℕ → Call
  delete_call : String → Call
  cas_call : String → String → ℕ → Call
  watch_call : String → Call
  unwatch_call : String → ℕ → Call

-- The state that a call leaves, and the writes to `j` that it made.
unfoldable pub step : String → Call → Kv → ℕ × Kv
step j (get_call key now) s = (0, (get key now s).1)
step j (delete_call key) s = (0, delete key s)
step j (put_call key value ttl now) s = (if str_eq key j then 1 else 0, (put key value ttl now s).1)
step j (cas_call key value expected) s =
    let (r, s') = cas key value expected s in (if str_eq key j then wrote r else 0, s')
step j (watch_call p) s = (0, (watch p s).1)
step j (unwatch_call p id) s = (0, unwatch p id s)

pub run : String → List Call → Kv → ℕ × Kv
unfolding step
run j [] s = (0, s)
run j (c ∷ cs) s = let (n, s') = step j c s in let (m, s'') = run j cs s' in (n + m, s'')

-- A call does not drop the entry of `j`: it does not delete it, and does not read it as missing or
-- expired.
abbrev pub Spares : String → Call → Kv → Type 0
Spares j (get_call key now) s = (str_eq key j && not (is_some (get key now s).0)) ≡ false
Spares j (delete_call key) s = str_eq key j ≡ false
Spares j (put_call _ _ _ _) s = Unit
Spares j (cas_call _ _ _) s = Unit
Spares j (watch_call _) s = Unit
Spares j (unwatch_call _ _) s = Unit

abbrev pub AllSpare : String → List Call → Kv → Type 0
AllSpare j [] s = Unit
AllSpare j (c ∷ cs) s = Spares j c s × AllSpare j cs (step j c s).1

current_rev-erase :
    (key j : String) (s : Kv)
    → str_eq key j ≡ false
    → current_rev j (erase key s.store) ≡ current_rev j s.store
unfolding current_rev
current_rev-erase key j s h = ground (arith, lookup-erase key j s.store, h)

current_rev-delete-other :
    (key j : String) (s : Kv)
    → str_eq key j ≡ false
    → current_rev j (delete key s).store ≡ current_rev j s.store
unfolding delete
current_rev-delete-other key j s h = simp store-notify (current_rev-erase key j s h)

-- A read that finds the key changes nothing.
get_found :
    (key : String) (now : ℕ) (s : Kv) → is_some (get key now s).0 ≡ true → (get key now s).1 ≡ s
unfolding get
get_found key now s h = ground (arith, h)

current_rev-get-other :
    (key j : String) (now : ℕ) (s : Kv)
    → str_eq key j ≡ false
    → current_rev j (get key now s).1.store ≡ current_rev j s.store
unfolding get
current_rev-get-other key j now s h = elim (Option-cases (lookup key s.store)) [
  | inl e ↦ unfold get in ground (arith, current_rev-erase key j s h, e)
  | inr (x, e) ↦ unfold get in ground (arith, current_rev-erase key j s h, e)
]

current_rev-get :
    (key j : String) (now : ℕ) (s : Kv)
    → (str_eq key j && not (is_some (get key now s).0)) ≡ false
    → current_rev j (get key now s).1.store ≡ current_rev j s.store
current_rev-get key j now s h = elim (Bool-cases (str_eq key j)) [
  | inr other ↦ current_rev-get-other key j now s other
  | inl same ↦
      let found : is_some (get key now s).0 ≡ true = ground (arith, same, h) in
      ap (λ (t : Kv). current_rev j t.store) (get_found key now s found)
]

current_rev-step :
    (j : String) (c : Call) (s : Kv)
    → Spares j c s
    → current_rev j (step j c s).1.store ≡ current_rev j s.store + (step j c s).0
unfolding step watch unwatch
current_rev-step j (get_call key now) s h = omega (arith, current_rev-get key j now s h)
current_rev-step j (delete_call key) s h = omega (arith, current_rev-delete-other key j s h)
current_rev-step j (put_call key value ttl now) s _ = current_rev-put key j value ttl now s
current_rev-step j (cas_call key value expected) s _ = current_rev-cas key j value expected s
current_rev-step j (watch_call p) s _ = omega arith
current_rev-step j (unwatch_call p id) s _ = omega arith

-- Whatever clients call in whatever order, as long as no call drops the entry of a key, by a delete
-- or by a read of it as missing or expired: the revision of the key grows by exactly the number of
-- writes to it that went through, none lost or counted twice.
pub revision_counts_writes :
    (j : String) (calls : List Call) (s : Kv)
    → AllSpare j calls s
    → current_rev j (run j calls s).1.store ≡ current_rev j s.store + (run j calls s).0
unfolding run
revision_counts_writes j [] s _ = omega arith
revision_counts_writes j (c ∷ cs) s (h, hs) =
    omega (arith, current_rev-step j c s h, revision_counts_writes j cs (step j c s).1 hs)

cas_won :
    (key v : String) (expected n : ℕ) (s : Kv)
    → (cas key v expected s).0 ≡ swapped n
    → current_rev key (cas key v expected s).1.store ≡ expected + 1
unfolding cas
cas_won key v expected n s h = elim (Bool-cases (current_rev key s.store == expected)) [
  | inl e ↦ rw e (simp (store-notify, current_rev-insert, eq_refl) (ground arith))
  | inr e ↦ ground (arith, e)
]

cas_at_other :
    (key v : String) (expected : ℕ) (s : Kv)
    → current_rev key s.store ≢ expected
    → cas key v expected s ≡ (conflict expected (current_rev key s.store), s)
unfolding cas
cas_at_other key v expected s h = ground arith

cas_at :
    (key v : String) (expected : ℕ) (s : Kv)
    → current_rev key s.store ≡ expected
    → (cas key v expected s).0 ≡ swapped (expected + 1)
unfolding cas
cas_at key v expected s h = ground arith

put_revision :
    (key v : String) (ttl : Option ℕ) (now : ℕ) (s : Kv)
    → (put key v ttl now s).0 ≡ current_rev key s.store + 1
unfolding put
put_revision key v ttl now s = refl

current_rev-delete : (key : String) (s : Kv) → current_rev key (delete key s).store ≡ 0
unfolding delete current_rev
current_rev-delete key s = ground (
  arith,
  lookup-erase key key s.store,
  eq_iff key key,
  store-notify key removed (record s { store = erase key s.store }),
)

-- Of two clients that both expect the revision `expected` of a key, at most one wins: if the first
-- `cas` went through, then after any calls, of whatever keys, none of which deletes the key or reads
-- it as missing or expired, the second is a conflict and changes nothing.
pub cas_race :
    (key v w : String) (expected n : ℕ) (between : List Call) (s : Kv)
    → (cas key v expected s).0 ≡ swapped n
    → AllSpare key between (cas key v expected s).1
    → let s' = (run key between (cas key v expected s).1).1 in
      (r : ℕ) × (cas key w expected s' ≡ (conflict expected r, s'))
cas_race key v w expected n between s h spare =
    let s₁ = (cas key v expected s).1 in
    let s₂ = (run key between s₁).1 in
    (
      current_rev key s₂.store,
      cas_at_other key w expected s₂ (
          omega (arith, cas_won key v expected n s h, revision_counts_writes key between s₁ spare)),
    )

-- `delete` forgets the revision: whatever the key held, a write after it has revision 1 again, so
-- a `cas` that expects a revision 1 read before the delete goes through.
pub delete_reuses_revision :
    (key v w : String) (ttl : Option ℕ) (now : ℕ) (s : Kv)
    → let (rev, s') = put key v ttl now (delete key s) in
      (rev ≡ 1) × ((cas key w 1 s').0 ≡ swapped 2)
delete_reuses_revision key v w ttl now s =
    let e : current_rev key (delete key s).store ≡ 0 = current_rev-delete key s in
    let p = current_rev-put key key v ttl now (delete key s) in
    (
      omega (arith, put_revision key v ttl now (delete key s)),
      cas_at key w 1 (put key v ttl now (delete key s)).1 (ground (arith, eq_iff key key)),
    )
