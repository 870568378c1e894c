-- ===== src/Login/Servers/Tests.antt =====
-- A server with a route into its own network and one for everybody, in a network whose subnets are
-- numbers: 0 has every address, another number itself.
use l2go.Prelude.{
  get_or, ℕ, ◌≡◌, refl, true, false, Option, none, some, List, [], ◌∷◌, ◌==◌, ◌||◌, if◌then◌else◌,
  arith, nat_eq,
}
use l2go.Prelude.Int.{pos}
use l2go.Link.Ings.{AuthRequest}
use l2go.Login.Servers.{
  Network, GameServerInfo, Servers, get_by_id, is_visible, get_server_address, handle_auth_request,
}
use l2go.Login.Servers.Laws.{routes, routed, first_host, get_server_address-handle_auth_request}

abbrev first_code : List ℕ → Option ℕ
first_code [] = none
first_code (c ∷ cs) = some c

abbrev toy : Network
toy = record {
  Subnet = ℕ;
  Ip = ℕ;
  parse_cidr = first_code;
  parse_ip = first_code;
  single = λ text. get_or text 0 0;
  contains = λ subnet ip. subnet == 0 || subnet == ip;
  any_ip = 0;
}

abbrev bartz : AuthRequest
bartz = record {
  version = 14;
  id = 1;
  accept_alternate = true;
  reserve_host = false;
  port = 7777;
  max_players = 5000;
  hex_id = 1 ∷ [];
  subnets = (10 ∷ []) ∷ (0 ∷ []) ∷ [];
  hosts = (100 ∷ []) ∷ (200 ∷ []) ∷ [];
}

inside : routed toy 10 [] (routes toy bartz.subnets bartz.hosts) ≡ 100 ∷ []
unfolding routed routes
inside = refl

get_server_address-handle_auth_request_example :
    (servers' : Servers ℕ) × (info : GameServerInfo ℕ) × (handle_auth_request toy [] bartz 5
      ≡ some servers')
    × ((id : ℕ) → get_by_id servers' id ≡ (if 1 == id then some info else get_by_id [] id))
    × (is_visible info (pos 0) ≡ true)
    × (get_server_address toy info 30
        ≡ (let rs = routes toy bartz.subnets bartz.hosts in routed toy 30 (first_host toy rs) rs))
get_server_address-handle_auth_request_example =
    get_server_address-handle_auth_request toy [] bartz 5 30 (pos 0)
      (λ e. absurd (omega (arith, e))) (omega arith)
