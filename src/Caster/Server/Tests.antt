-- ===== src/Caster/Server/Tests.antt =====
-- The theorems on the admission of rovers at concrete inputs, and runs of the model.
use babilcors.Prelude.{
  ℕ, ◌≡◌, ◌≢◌, ◌≤◌, length, true, refl, sym, subst, false, Option, none, some, List, [], ◌∷◌, arith,
}
use mathlib.Core.Option.{none-ne-some}
use babilcors.Prelude.Int.{pos}
use babilcors.Prelude.Dict.{string_eq, lookup}
use babilcors.Geodesy.Whole.{whole_numbers}
use babilcors.Caster.Server.Changes.{IsRefusal}
use babilcors.Caster.Server.Altered.{altered, read_gga_header-altered, admit-altered}
use babilcors.Caster.Server.{
  Config, Server, Request, User, accepted, fails, admit, has, authenticate, user_can_access,
  at_limit, read_gga_header,
}
use babilcors.Caster.Server.Limits.{
  World, Event, asks, ends, run, IsCounted, IsWithin, run-IsWithin,
}
use babilcors.Caster.Server.Replies.{
  IsEntitled, admit-accepts, admit-IsEntitled, admit-unreadable, IsAccepted,
}

abbrev user : User
user = record { username = "rover"; tier = "free"; mountpoints = "*" ∷ [] }

abbrev config : Config
config = record {
  numbers = whole_numbers;
  users = ("rover", user) ∷ [];
  tiers = [];
  max_rovers_total = pos 1;
  max_rovers_per_ip = pos 1;
  verify_password = λ u p. string_eq.beq p "secret";
}

abbrev server : Server
server = record {
  mountpoints = [];
  disabled_mountpoints = [];
  id_seq = 0;
  rover_total = 0;
  rover_ip_counts = [];
  auth_unauth_total = 0;
  auth_unauth_per_mp = [];
  source_unauth_total = 0;
}

abbrev request : Option (List ℕ) → Request
request gga = record {
  mountpoint = "RTCM3";
  credentials = some ("rover", "secret");
  gga_header = gga;
  client_ip = "10.0.0.1";
}

abbrev events : List Event
events =
    asks (request none) 5
    ∷ asks (request none) 6
    ∷ ends 1 true
    ∷ asks (request none) 7
    ∷ ends 3 false
    ∷ []

abbrev world : World
world = record { server = server; live = []; lost = [] }

world-IsCounted : IsCounted world
unfolding lookup
world-IsCounted = record { total = refl; per_ip = λ ip. refl }

server-IsWithin : IsWithin config server
unfolding lookup
server-IsWithin = record { total = λ on. omega arith; per_ip = λ ip on. omega arith }

run-IsWithin_example :
    IsCounted (run config events world)
    × IsWithin config (run config events world).server
    × (length world.lost ≤ length (run config events world).lost)
run-IsWithin_example = run-IsWithin config events world world-IsCounted server-IsWithin

request-IsEntitled : (gga : Option (List ℕ)) → IsEntitled config (request gga) server
unfolding has authenticate user_can_access at_limit lookup
request-IsEntitled gga = record {
  enabled = refl;
  user = user;
  known = refl;
  access = refl;
  total = refl;
  per_ip = refl;
}

no_header-readable : read_gga_header whole_numbers none ≢ none
unfolding read_gga_header
no_header-readable e = none-ne-some none (sym e)

accepts_one : (admit config (request none) 5 server).1 ≡ accepted 1
accepts_one =
    admit-accepts config (request none) 5 server (request-IsEntitled none) no_header-readable

is_accepted : IsAccepted (admit config (request none) 5 server).1
is_accepted = subst IsAccepted (sym accepts_one) tt

admit-IsEntitled_example :
    IsEntitled config (request none) server
    × (read_gga_header config.numbers (request none).gga_header ≢ none)
admit-IsEntitled_example = admit-IsEntitled config (request none) 5 server is_accepted

-- `GZGGA` in the place of `GPGGA`, of a rover that would be accepted without the header.
abbrev header : List ℕ
header = altered (b'G' ∷ []) (b'G' ∷ b'G' ∷ b'A' ∷ []) b'P' b'Z'

admit-altered_example :
    IsRefusal (admit config (request (some header)) 5 server).1
    × ((admit config (request (some header)) 5 server).0.rover_total ≡ server.rover_total)
    × ((admit config (request (some header)) 5 server).0.rover_ip_counts ≡ server.rover_ip_counts)
    × ((admit config (request (some header)) 5 server).0.mountpoints ≡ server.mountpoints)
admit-altered_example =
    admit-altered config (request (some header)) 5 server (b'G' ∷ []) (b'G' ∷ b'G' ∷ b'A' ∷ []) b'P'
      b'Z' (omega arith) (omega arith) (omega arith) (omega arith) (omega arith) refl

-- An entitled rover with such a header makes the handler fail.
fails_on_header :
    admit config (request (some header)) 5 server ≡ (record server { id_seq = 1 }, fails)
fails_on_header =
    admit-unreadable config (request (some header)) 5 server (request-IsEntitled (some header)) (
      read_gga_header-altered config (request (some header)) (b'G' ∷ []) (b'G' ∷ b'G' ∷ b'A' ∷ [])
        b'P' b'Z' (omega arith) (omega arith) (omega arith) (omega arith) (omega arith) refl)
