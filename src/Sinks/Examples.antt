-- ===== src/Sinks/Examples.antt =====
-- Sinks with names: a terminal, a bridge of the channel c, and a second terminal that goes away.
use doll_os.Prelude.{String, ◌≡◌, refl, none, some, List, [], ◌∷◌}
use doll_os.Sinks.{registers, unregisters, Resolver, Change, resolve, changes}
use doll_os.Sinks.Latest.{latest, resolve-latest}

abbrev start : Resolver String
start = record { entries = []; counter = 0 }

abbrev sessions : List (Change String)
sessions =
    registers "terminal" "internal" none
    ∷ registers "bridge" "external" (some "c")
    ∷ registers "window" "internal" none
    ∷ unregisters 2
    ∷ []

to_bridge : resolve String (some "c") (changes String sessions start) ≡ some "bridge"
unfolding resolve changes
to_bridge = refl

to_terminal : resolve String none (changes String sessions start) ≡ some "terminal"
unfolding resolve changes
to_terminal = refl

resolve-latest_example :
    resolve String (some "c") (changes String sessions start)
    ≡ latest String (some "c") (changes String sessions start).entries
resolve-latest_example = resolve-latest String sessions start (some "c") refl
