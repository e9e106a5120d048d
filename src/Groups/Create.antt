-- ===== src/Groups/Create.antt =====
-- ProgramGroups::Create and Delete.
use dartino_sdk.Base.{
  ℕ, ◌-◌, ◌/◌, ◌^◌, ◌≤◌, ◌≡◌, refl, ap, ◌∙◌, true, false, not, ◌&&◌, none, some, arith, set, ◌==◌,
  ==_iff, Bool-cases, inl, inr, if◌then◌else◌, String,
}
use dartino_sdk.Groups.{
  ProgramGroups, has_bit, set_bit, clear_bit, create_from, create, is_valid_group, delete,
}
use dartino_sdk.Groups.Bits.{has_bit-clear_bit, pred_same}

-- Create never reports that the groups are used up: it gives group 2, and marks it, if group 1
-- alone is in use, and group 1 in every other case, also when group 1 is in use already; the
-- name given replaces the name of that group.
pub create_lem :
    (groups : ProgramGroups) (name : String)
    → create groups name ≡ (
        if groups.used_group_mask == 1
        then (2, record { group_names = set groups.group_names 1 (some name); used_group_mask = 3 })
        else (
          1,
          record {
            group_names = set groups.group_names 0 (some name);
            used_group_mask = set_bit groups.used_group_mask 0;
          },
        ))
unfolding create create_from
create_lem groups name = elim (Bool-cases (groups.used_group_mask == 1)) [
  | inl e ↦ let one = (==_iff groups.used_group_mask 1).0 e in rw one refl
  | inr e ↦
      let first : (groups.used_group_mask / 2 ^ 0 == 1) ≡ false = ground arith in rw (e, first) refl
]

-- Delete of a valid group succeeds; afterwards that group is not valid, and every other of the
-- five is as valid as before.
pub delete_lem :
    (groups : ProgramGroups) (group other : ℕ)
    → group ≤ 5
    → other ≤ 5
    → is_valid_group groups group ≡ true
    → (groups' : ProgramGroups) × (delete groups group ≡ some groups')
      × (is_valid_group groups' other ≡ (not (other == group) && is_valid_group groups other))
unfolding delete is_valid_group
delete_lem groups group other h k v =
    let cleared = has_bit-clear_bit groups.used_group_mask (group - 1) (other - 1) in
    (
      record {
        group_names = set groups.group_names (group - 1) none;
        used_group_mask = clear_bit groups.used_group_mask (group - 1);
      },
      rw v refl,
      elim (Bool-cases (other == 0)) [
        | inl z ↦ rw z (ground arith)
        | inr z ↦
            let same : (other - 1 == group - 1) ≡ (other == group) =
              pred_same other group (ground arith) (ground (arith, v)) in
            rw z (
              cleared (omega arith) (omega arith)
              ∙ ap (λ e. not e && has_bit groups.used_group_mask (other - 1)) same)
      ],
    )
