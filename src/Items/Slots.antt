-- ===== src/Items/Slots.antt =====
-- The two tables of body parts agree.
use l2go.Prelude.{
  refl, [], ◌∷◌, All, inl, inr, Bool-cases, ℕ, ◌≡◌, some, ◌&&◌, leb, ◌==◌, if◌then◌else◌, nat_eq,
  arith,
}
use l2go.Prelude.Dict.{Dict, lookup}
use l2go.Items.{PaperdollSlot, paperdoll_slot_codes, body_part_to_paperdoll_slot}

-- The decoration slots share a body part, and the two-handed slot stands for the right hand.
abbrev pub equipped_as : PaperdollSlot → PaperdollSlot
equipped_as s = if leb 18 s && leb s 22 then 17 else (if s == 25 then 5 else s)

agrees :
    (m : Dict PaperdollSlot ℕ) (s : PaperdollSlot) (code : ℕ)
    → All (λ e. body_part_to_paperdoll_slot e.1 ≡ some (equipped_as e.0)) m
    → lookup s m ≡ some code
    → body_part_to_paperdoll_slot code ≡ some (equipped_as s)
unfolding lookup
agrees [] s code a h = ground arith
agrees ((j, c) ∷ m) s code a h = elim (Bool-cases (j == s)) [
  | inl same ↦ ground arith
  | inr other ↦ agrees m s code a.1 (ground arith)
]

codes_agree :
    All (λ e. body_part_to_paperdoll_slot e.1 ≡ some (equipped_as e.0)) paperdoll_slot_codes
unfolding body_part_to_paperdoll_slot lookup
codes_agree = (
  refl,
  (
    refl,
    (
      refl,
      (
        refl,
        (
          refl,
          (
            refl,
            (
              refl,
              (
                refl,
                (
                  refl,
                  (
                    refl,
                    (
                      refl,
                      (
                        refl,
                        (
                          refl,
                          (
                            refl,
                            (
                              refl,
                              (
                                refl,
                                (
                                  refl,
                                  (
                                    refl,
                                    (
                                      refl,
                                      (refl, (refl, (refl, (refl, (refl, (refl, (refl, tt))))))),
                                    ),
                                  ),
                                ),
                              ),
                            ),
                          ),
                        ),
                      ),
                    ),
                  ),
                ),
              ),
            ),
          ),
        ),
      ),
    ),
  ),
)

-- The body part that the packets show for a slot leads back to the slot that items with that body
-- part are equipped in: the slot itself, but for the shared ones.
pub body_part_to_paperdoll_slot-codes :
    (s : PaperdollSlot) (code : ℕ)
    → lookup s paperdoll_slot_codes ≡ some code
    → body_part_to_paperdoll_slot code ≡ some (equipped_as s)
body_part_to_paperdoll_slot-codes s code h = agrees paperdoll_slot_codes s code codes_agree h
