-- ===== src/Registry/Connections/Tests.antt =====
-- Account 7 logs in twice, and the first connection cleans up last.
use l2go.Prelude.{◌≡◌, refl, some, List, [], ◌∷◌, ℕ, nat_eq}
use l2go.Prelude.Dict.{Dict, lookup}
use l2go.Registry.Connections.{get_connection, unregister_if}
use l2go.Registry.Connections.Laws.{
  Call, registers, unregisters, cleans_up, after, online, get_connection-after,
}

abbrev takeover : List (Call ℕ)
takeover = cleans_up 7 1 ∷ unregisters 9 ∷ registers 7 2 ∷ registers 8 3 ∷ registers 7 1 ∷ []

abbrev one_login : Dict ℕ ℕ
one_login = (7, 2) ∷ []

stays : get_connection (unregister_if one_login 7 1) 7 ≡ some 2
unfolding get_connection unregister_if lookup
stays = refl

get_connection-after_example : get_connection (after takeover) 7 ≡ online 7 [] takeover
get_connection-after_example = get_connection-after takeover 7
