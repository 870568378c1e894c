-- ===== src/Login/Servers/Laws.antt =====
-- A game server that registers, and the address that a client is given for it.
use l2go.Prelude.{
  ℕ, ◌≤◌, ◌≡◌, ◌≢◌, refl, sym, ap, ◌∙◌, true, false, none, some, List, [], ◌∷◌, ◌++◌, ◌==◌,
  if◌then◌else◌, length, nat_eq, arith, inl, inr, Option-cases, Bool-cases,
}
use mathlib.Core.List.{append_assoc, append-nil}
use l2go.Prelude.Dict.{insert, lookup-insert}
use l2go.Prelude.Int.{ℤ}
use l2go.Link.Ings.{AuthRequest}
use l2go.Login.Servers.{
  Network, GameServerAddress, GameServerInfo, Servers, register, get_by_id, is_visible,
  parse_subnet, add_server_address, first_matching, first_or_empty, get_server_address, add_hosts,
  server_info, handle_auth_request,
}

module _ (net : Network) where
  -- The subnets and hosts that a game server names, but for those that are no subnet.
  unfoldable pub routes : List (List ℕ) → List (List ℕ) → List (net.Subnet × List ℕ)
  routes subnets [] = []
  routes [] (host ∷ hosts) = []
  routes (s ∷ subnets) (host ∷ hosts) =
      elim (parse_subnet net s (net.parse_cidr s) (net.parse_ip s)) [
        | none ↦ routes subnets hosts
        | some subnet ↦ (subnet, host) ∷ routes subnets hosts
      ]

  -- The host of the first route for the client, else the fallback.
  unfoldable pub routed : net.Ip → List ℕ → List (net.Subnet × List ℕ) → List ℕ
  routed ip fallback [] = fallback
  routed ip fallback ((subnet, host) ∷ rs) =
      if net.contains subnet ip then host else routed ip fallback rs

  abbrev pub first_host : List (net.Subnet × List ℕ) → List ℕ
  first_host [] = []
  first_host ((subnet, host) ∷ rs) = host

  to_addresses : List (net.Subnet × List ℕ) → List (GameServerAddress net.Subnet)
  to_addresses [] = []
  to_addresses ((subnet, host) ∷ rs) =
      record { subnet = subnet; server_address = host } ∷ to_addresses rs

  abbrev with_routes :
      GameServerInfo net.Subnet → List (net.Subnet × List ℕ) → GameServerInfo net.Subnet
  with_routes gsi rs = record gsi { addresses = gsi.addresses ++ to_addresses rs }

  add_hosts-routes :
      (gsi : GameServerInfo net.Subnet) (subnets hosts : List (List ℕ))
      → length hosts ≤ length subnets
      → add_hosts net gsi subnets hosts ≡ some (with_routes gsi (routes subnets hosts))
  unfolding add_hosts add_server_address routes to_addresses
  add_hosts-routes gsi subnets [] fewer =
      ap (λ a. some (record gsi { addresses = a })) (sym (append-nil gsi.addresses))
  add_hosts-routes gsi [] (host ∷ hosts) fewer = absurd (omega (arith, fewer))
  add_hosts-routes gsi (s ∷ subnets) (host ∷ hosts) fewer =
      elim (Option-cases (parse_subnet net s (net.parse_cidr s) (net.parse_ip s))) [
        | inl skipped ↦
            rw (skipped, routes) (add_hosts-routes gsi subnets hosts (omega (arith, fewer)))
        | inr (subnet, taken) ↦
            let shorter : length hosts ≤ length subnets = omega (arith, fewer) in
            let added : List (GameServerAddress net.Subnet) =
              record { subnet = subnet; server_address = host } ∷ [] in
            let gsi' : GameServerInfo net.Subnet = record gsi {
              addresses = gsi.addresses ++ added;
            } in
            rw (taken, routes)
              (add_hosts-routes gsi' subnets hosts shorter
                ∙ ap (λ a. some (record gsi { addresses = a }))
                    (append_assoc gsi.addresses added (to_addresses (routes subnets hosts))))
      ]

  matched :
      (rs : List (net.Subnet × List ℕ)) (ip : net.Ip) (fallback : List ℕ)
      → (elim (first_matching net (to_addresses rs) ip) as (λ x. List ℕ) [
        | some host ↦ host
        | none ↦ fallback
      ])
        ≡ routed ip fallback rs
  unfolding first_matching routed to_addresses
  matched [] ip fallback = refl
  matched ((subnet, host) ∷ rs) ip fallback = elim (Bool-cases (net.contains subnet ip)) [
    | inl inside ↦ rw inside refl
    | inr outside ↦ rw outside (matched rs ip fallback)
  ]

  first_or_empty-first_host :
      (rs : List (net.Subnet × List ℕ)) → first_or_empty net (to_addresses rs) ≡ first_host rs
  unfolding to_addresses
  first_or_empty-first_host [] = refl
  first_or_empty-first_host ((subnet, host) ∷ rs) = refl

  -- When a game server registers, with a number other than 0 and no more hosts than subnets, it is
  -- known by its number, is shown to every client, and a client is given the host of the first subnet
  -- that has its address, or else the first host; names that are no subnet are passed over. Every
  -- other server stays as it was.
  pub get_server_address-handle_auth_request :
      (servers : Servers net.Subnet) (auth_req : AuthRequest) (now : ℕ) (client_ip : net.Ip)
      (access_level : ℤ)
      → auth_req.id ≢ 0
      → length auth_req.hosts ≤ length auth_req.subnets
      → (servers' : Servers net.Subnet) × (info : GameServerInfo net.Subnet) × (handle_auth_request
            net servers auth_req now
          ≡ some servers')
        × ((id : ℕ)
            → get_by_id servers' id
              ≡ (if auth_req.id == id then some info else get_by_id servers id))
        × (is_visible info access_level ≡ true)
        × (get_server_address net info client_ip ≡ (
            let rs = routes auth_req.subnets auth_req.hosts in routed client_ip (first_host rs) rs))
  unfolding handle_auth_request register get_by_id is_visible get_server_address
  get_server_address-handle_auth_request servers auth_req now client_ip access_level numbered
        fewer =
      let rs = routes auth_req.subnets auth_req.hosts in
      let info = record (with_routes (server_info net auth_req) rs) { last_update = now } in
      let some_number : (auth_req.id == 0) ≡ false = ground (arith, numbered) in
      (
        insert auth_req.id info servers,
        info,
        rw
            (
              add_hosts-routes (server_info net auth_req) auth_req.subnets auth_req.hosts fewer,
              some_number,
              handle_auth_request,
            )
            refl,
        λ id. lookup-insert auth_req.id id info servers,
        refl,
        matched rs client_ip (first_or_empty net (to_addresses rs))
            ∙ ap (λ f. routed client_ip f rs) (first_or_empty-first_host rs),
      )
