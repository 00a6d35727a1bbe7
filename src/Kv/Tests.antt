-- ===== src/Kv/Tests.antt =====
-- Runs of the key-value store on concrete calls.
use eidolon_agent.Base.{ℕ, ◌≡◌, refl, none, some, List, [], ◌∷◌}
use eidolon_agent.Base.Dict.{lookup, insert, erase}
use eidolon_agent.Kv.{
  Kv, init, swapped, conflict, expired, get, put, delete, cas, keys, clear, current_rev, watch,
  unwatch, notify, notify_all, notify_removed, append_queue, drop_queue,
}
use eidolon_agent.Kv.Races.{
  Call, get_call, delete_call, step, put_call, cas_call, watch_call, run, cas_race,
  delete_reuses_revision,
}

abbrev one_key : Kv
one_key = (put "a" "v" (some 1) 5 init).1

-- The key expires a second later.
expires : ((get "a" 1_000_004 one_key).0 ≡ some "v") × ((get "a" 1_000_005 one_key).0 ≡ none)
unfolding get put notify notify_all expired current_rev insert lookup erase
expires = (refl, refl)

keys_live :
    (keys "" 6 one_key ≡ "a" ∷ []) × (keys "" 1_000_005 one_key ≡ []) × (keys "b" 6 one_key ≡ [])
unfolding keys put notify notify_all expired current_rev insert lookup
keys_live = (refl, refl, refl)

cleared : (clear one_key).store ≡ []
unfolding clear notify_removed put notify notify_all current_rev insert lookup
cleared = refl

-- A watcher that comes, sees a write and a removal, and goes.
abbrev watched : Kv
watched = (watch "a" init).1

watcher_goes : unwatch "a" 0 watched ≡ record init { next_queue = 1 }
unfolding watch unwatch append_queue drop_queue
watcher_goes = refl

abbrev calls : List Call
calls =
    watch_call "a"
    ∷ put_call "a" "x" none 8
    ∷ get_call "a" 9
    ∷ delete_call "b"
    ∷ cas_call "b" "y" 0
    ∷ cas_call "a" "y" 7
    ∷ []

first_wins : (cas "a" "w" 1 one_key).0 ≡ swapped 2
unfolding cas put notify notify_all current_rev insert lookup
first_wins = refl

cas_race_example :
    (r : ℕ) × (cas "a" "u" 1 (run "a" calls (cas "a" "w" 1 one_key).1).1
      ≡ (conflict 1 r, (run "a" calls (cas "a" "w" 1 one_key).1).1))
unfolding step get watch cas put append_queue notify notify_all expired current_rev insert lookup
cas_race_example =
    cas_race "a" "w" "u" 1 2 calls one_key first_wins (tt, (tt, (refl, (refl, (tt, (tt, tt))))))

delete_reuses_revision_example :
    ((put "a" "w" none 9 (delete "a" one_key)).0 ≡ 1)
    × ((cas "a" "u" 1 (put "a" "w" none 9 (delete "a" one_key)).1).0 ≡ swapped 2)
delete_reuses_revision_example = delete_reuses_revision "a" "w" "u" none 9 one_key
