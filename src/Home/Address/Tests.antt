-- ===== src/Home/Address/Tests.antt =====
-- Addresses in a home of three lamps.
use eidolon_agent.Base.{◌≡◌, refl, true, false, none, some, List, [], ◌∷◌, String, All, split}
use eidolon_agent.Home.Address.{
  Addressed, Area, Address, resolved, ambiguous, not_found, prefer_local, decide, key_of, has_name,
  is_area, in_area, resolve_address,
}
use eidolon_agent.Home.Address.Narrowed.{Fits, IsChoice, resolve_address-Fits}

abbrev lamp : String → String → Addressed
lamp id area = record {
  device_id = id;
  name = "lamp";
  aliases = [];
  area_id = some area;
  kind = "light";
}

abbrev devices : List Addressed
devices = lamp "l1" "hall" ∷ lamp "l2" "den" ∷ lamp "l3" "den" ∷ []

abbrev areas : List Area
areas = record { area_id = "hall"; name = "Hall" } ∷ record { area_id = "den"; name = "Den" } ∷ []

abbrev the_lamp : Address
the_lamp = record { name = some "lamp"; area = none; device_type = none; everything = false }

abbrev folded : String → String
folded s = s

in_hall :
    resolve_address folded devices areas the_lamp (some "hall") ≡ resolved (lamp "l1" "hall" ∷ [])
unfolding resolve_address in_area decide prefer_local has_name is_area key_of split
in_hall = refl

others :
    (resolve_address folded devices areas the_lamp (some "den")
      ≡ ambiguous (lamp "l2" "den" ∷ lamp "l3" "den" ∷ []))
    × (resolve_address folded devices areas (record the_lamp { everything = true }) none
        ≡ resolved devices)
    × (resolve_address folded devices areas (record the_lamp { area = some "attic" }) none
        ≡ not_found)
    × (resolve_address folded devices areas (record the_lamp { name = none }) none ≡ not_found)
unfolding resolve_address in_area decide prefer_local has_name is_area key_of split
others = (refl, refl, refl, refl)

resolve_address-Fits_example :
    All (Fits folded devices areas the_lamp) (lamp "l1" "hall" ∷ [])
    × IsChoice the_lamp (lamp "l1" "hall" ∷ [])
resolve_address-Fits_example =
    resolve_address-Fits folded devices areas the_lamp (some "hall") (lamp "l1" "hall" ∷ []) in_hall
