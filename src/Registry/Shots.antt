-- ===== src/Registry/Shots.antt =====
-- ChargedShotRegistry and AutoShotRegistry of internal/gameserver/registry: chargedshots.go and
-- autoshots.go.
pub mod Laws
mod Tests
use l2go.Prelude.{
  ℕ, ◌≡◌, Bool, true, false, not, Option, none, some, List, [], ◌∷◌, ◌==◌, if◌then◌else◌, Eq,
  nat_eq, ◌↔◌, arith,
}
use l2go.Prelude.Dict.{Dict, lookup, insert, delete}
use l2go.Prelude.Nested.{
  Nested, nested_lookup, nested_insert, nested_delete, or_empty, keys, is_some, is_empty,
}

pub data ShotType : Type 0 where
  soulshot spiritshot blessed_spiritshot : ShotType

abbrev pub shot_beq : ShotType → ShotType → Bool
shot_beq soulshot soulshot = true
shot_beq spiritshot spiritshot = true
shot_beq blessed_spiritshot blessed_spiritshot = true
shot_beq _ _ = false

pub shot_beq_iff : (a b : ShotType) → (shot_beq a b ≡ true) ↔ (a ≡ b)
shot_beq_iff a b = ground arith

instance abbrev pub shot_eq : Eq ShotType
shot_eq = record { beq = shot_beq; beq_iff = shot_beq_iff }

-- weaponObjectID -> shot -> grade id.
abbrev pub ChargedShots : Type 0
ChargedShots = Nested ℕ ShotType ℕ

pub is_charged : ChargedShots → ℕ → ShotType → Bool
is_charged r weapon shot = is_some (nested_lookup weapon shot r)

abbrev pub or_zero : Option ℕ → ℕ
or_zero none = 0
or_zero (some n) = n

unfoldable pub charged_grade : ChargedShots → ℕ → ShotType → ℕ
charged_grade r weapon shot = or_zero (nested_lookup weapon shot r)

pub charge : ChargedShots → ℕ → ShotType → ℕ → ChargedShots
charge r weapon shot grade = nested_insert weapon shot grade r

pub set_charged : ChargedShots → ℕ → ShotType → Bool → ChargedShots
set_charged r weapon shot charged =
    if charged then charge r weapon shot 0 else nested_delete weapon shot r

unfoldable pub clear_charged : ChargedShots → ℕ → ChargedShots
clear_charged r weapon = delete weapon r

-- charID -> shot itemID -> active.
abbrev pub AutoShots : Type 0
AutoShots = Nested ℕ ℕ (Unit {0})

pub enable : AutoShots → ℕ → ℕ → AutoShots
enable r char_id item_id = nested_insert char_id item_id tt r

pub disable : AutoShots → ℕ → ℕ → AutoShots
disable r char_id item_id = nested_delete char_id item_id r

pub is_active : AutoShots → ℕ → ℕ → Bool
is_active r char_id item_id = is_some (nested_lookup char_id item_id r)

pub has_any : AutoShots → ℕ → Bool
has_any r char_id = not (is_empty (or_empty (lookup char_id r)))

pub list_shots : AutoShots → ℕ → List ℕ
list_shots r char_id = keys (or_empty (lookup char_id r))

pub clear_shots : AutoShots → ℕ → AutoShots
clear_shots r char_id = delete char_id r
