-- ===== src/Login/Servers.antt =====
-- The game servers that a login server knows: models/gameserver.go, registry/gameserver.go and
-- HandleAuthRequest of usecase/gameservercomm.go, of internal/loginserver. Texts are code points.
pub mod Laws
mod Tests
use l2go.Prelude.{
  ℕ, ◌+◌, ◌≡◌, Bool, true, false, not, Option, none, some, List, [], ◌∷◌, ◌++◌, ◌==◌, if◌then◌else◌,
  ltb, nat_eq,
}
use l2go.Prelude.Dict.{Dict, lookup, insert, delete}
use l2go.Prelude.Nested.{is_some}
use l2go.Prelude.Int.{ℤ, pos, negsuc}
use l2go.Link.Ings.{AuthRequest}

-- What the package net does with addresses: `single` is the subnet of the one
-- address that a text is, made of the text.
pub record Network : Type 1 where
  pub Subnet : Type 0
  pub Ip : Type 0
  pub parse_cidr : List ℕ → Option Subnet
  pub parse_ip : List ℕ → Option Ip
  pub single : List ℕ → Subnet
  pub contains : Subnet → Ip → Bool
  pub any_ip : Ip

pub data ServerStatus : Type 0 where
  status_down status_online status_gm_only status_test : ServerStatus

-- A name of the list by its place, or "Server_" with the number.
pub data ServerName : Type 0 where
  listed : ℕ → ServerName
  numbered : ℕ → ServerName

pub record GameServerAddress (S : Type 0) : Type 0 where
  pub subnet : S
  pub server_address : List ℕ

pub record GameServerInfo (S : Type 0) : Type 0 where
  pub id : ℕ
  pub name : ServerName
  pub port : ℕ
  pub status : ServerStatus
  pub current_players : ℕ
  pub max_players : ℕ
  pub pvp : Bool
  pub age_limit : ℕ
  pub server_type : ℕ
  pub show_brackets : Bool
  pub last_update : ℕ
  pub addresses : List (GameServerAddress S)

abbrev pub is_online : {S : Type 0} → GameServerInfo S → Bool
is_online gsi = elim gsi.status [
  | status_online ↦ true
  | status_gm_only ↦ true
  | status_down ↦ false
  | status_test ↦ false
]

abbrev pub is_gm : ℤ → Bool
is_gm (pos n) = ltb 0 n
is_gm (negsuc n) = false

pub is_visible : {S : Type 0} → GameServerInfo S → ℤ → Bool
is_visible gsi access_level = elim gsi.status [
  | status_gm_only ↦ is_gm access_level
  | status_down ↦ false
  | status_online ↦ true
  | status_test ↦ true
]

pub generate_server_name : ℕ → ServerName
generate_server_name server_id =
    if ltb 0 server_id
    then if ltb server_id 18 then listed server_id else numbered server_id
    else numbered server_id

abbrev pub Servers : Type 0 → Type 0
Servers S = Dict ℕ (GameServerInfo S)

module _ {S : Type 0} where
  -- `none` is an error; the time is that of the call.
  unfoldable pub register : Servers S → GameServerInfo S → ℕ → Option (Servers S)
  register servers info now =
      if info.id == 0
      then none
      else some (insert info.id (record info { last_update = now }) servers)

  pub unregister : Servers S → ℕ → Option (Servers S)
  unregister servers id = if is_some (lookup id servers) then some (delete id servers) else none

  unfoldable pub get_by_id : Servers S → ℕ → Option (GameServerInfo S)
  get_by_id servers id = lookup id servers

  pub update_status : Servers S → ℕ → ServerStatus → ℕ → Option (Servers S)
  update_status servers id status now = elim (lookup id servers) [
    | none ↦ none
    | some server ↦ some (insert id (record server { status = status; last_update = now }) servers)
  ]

  pub update_player_count : Servers S → ℕ → ℕ → ℕ → ℕ → Option (Servers S)
  update_player_count servers id current max_players now = elim (lookup id servers) [
    | none ↦ none
    | some server ↦ some (
        insert id
          (record server {
            current_players = current;
            max_players = max_players;
            last_update = now;
          })
          servers)
  ]

  unfoldable pub get_visible_servers : Servers S → ℤ → List (GameServerInfo S)
  get_visible_servers [] access_level = []
  get_visible_servers ((id, server) ∷ servers) access_level =
      let rest = get_visible_servers servers access_level in
      if is_visible server access_level then server ∷ rest else rest

module _ (net : Network) where
  -- A subnet, or a single address.
  abbrev pub parse_subnet : List ℕ → Option net.Subnet → Option net.Ip → Option net.Subnet
  parse_subnet text (some subnet) ip = some subnet
  parse_subnet text none none = none
  parse_subnet text none (some ip) = some (net.single text)

  abbrev pub with_address :
      GameServerInfo net.Subnet → List ℕ → Option net.Subnet → Option (GameServerInfo net.Subnet)
  with_address gsi server_addr none = none
  with_address gsi server_addr (some subnet) = some (record gsi {
    addresses = gsi.addresses ++ record { subnet = subnet; server_address = server_addr } ∷ [];
  })

  pub add_server_address :
      GameServerInfo net.Subnet → List ℕ → List ℕ → Option (GameServerInfo net.Subnet)
  add_server_address gsi subnet server_addr =
      with_address gsi server_addr
        (parse_subnet subnet (net.parse_cidr subnet) (net.parse_ip subnet))

  pub first_matching : List (GameServerAddress net.Subnet) → net.Ip → Option (List ℕ)
  first_matching [] client_ip = none
  first_matching (addr ∷ addresses) client_ip =
      if net.contains addr.subnet client_ip
      then some addr.server_address
      else first_matching addresses client_ip

  abbrev pub first_or_empty : List (GameServerAddress net.Subnet) → List ℕ
  first_or_empty [] = []
  first_or_empty (addr ∷ addresses) = addr.server_address

  pub get_server_address : GameServerInfo net.Subnet → net.Ip → List ℕ
  get_server_address gsi client_ip = elim (first_matching gsi.addresses client_ip) [
    | some server_address ↦ server_address
    | none ↦ first_or_empty gsi.addresses
  ]

  pub get_external_host : GameServerInfo net.Subnet → List ℕ
  get_external_host gsi = get_server_address gsi net.any_ip

  abbrev pub or_skipped :
      GameServerInfo net.Subnet → Option (GameServerInfo net.Subnet) → GameServerInfo net.Subnet
  or_skipped gsi none = gsi
  or_skipped gsi (some gsi') = gsi'

  -- The loop over the hosts; `none` is the index panic when there are fewer subnets.
  pub add_hosts :
      GameServerInfo net.Subnet → List (List ℕ) → List (List ℕ) → Option (GameServerInfo net.Subnet)
  add_hosts gsi subnets [] = some gsi
  add_hosts gsi [] (host ∷ hosts) = none
  add_hosts gsi (subnet ∷ subnets) (host ∷ hosts) =
      add_hosts (or_skipped gsi (add_server_address gsi subnet host)) subnets hosts

  abbrev pub server_info : AuthRequest → GameServerInfo net.Subnet
  server_info auth_req = record {
    id = auth_req.id;
    name = generate_server_name auth_req.id;
    port = auth_req.port;
    status = status_online;
    current_players = 0;
    max_players = auth_req.max_players;
    pvp = true;
    age_limit = 0;
    server_type = 1;
    show_brackets = false;
    last_update = 0;
    addresses = [];
  }

  -- `none` is an error or a panic.
  pub handle_auth_request : Servers net.Subnet → AuthRequest → ℕ → Option (Servers net.Subnet)
  handle_auth_request servers auth_req now =
      elim (add_hosts (server_info auth_req) auth_req.subnets auth_req.hosts) [
        | none ↦ none
        | some info ↦ register servers info now
      ]
