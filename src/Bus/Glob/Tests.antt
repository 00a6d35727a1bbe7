-- ===== src/Bus/Glob/Tests.antt =====
-- Subjects and patterns as the program uses them.
use eidolon_agent.Base.{◌≡◌, refl, true, false}
use eidolon_agent.Bus.Glob.{matches}

patterns :
    (matches "memory.>" "memory.turn.completed" ≡ true)
    × (matches "memory.*" "memory.turn.completed" ≡ true)
    × (matches "memory.[st]urn" "memory.turn" ≡ true)
    × (matches "memory.[!t]urn" "memory.turn" ≡ false)
    × (matches "memory.turn" "memory.turn.x" ≡ false)
unfolding matches
patterns = (refl, refl, refl, refl, refl)
