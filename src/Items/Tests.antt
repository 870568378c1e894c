-- ===== src/Items/Tests.antt =====
-- A body part with a slot, and one without.
use l2go.Prelude.{◌≡◌, refl, some, none}
use l2go.Prelude.Dict.{lookup}
use l2go.Items.{body_part_to_paperdoll_slot}
use l2go.Prelude.{nat_eq}

two_handed : body_part_to_paperdoll_slot 0x4000 ≡ some 5
unfolding body_part_to_paperdoll_slot lookup
two_handed = refl

no_slot : body_part_to_paperdoll_slot 0 ≡ none
unfolding body_part_to_paperdoll_slot lookup
no_slot = refl
