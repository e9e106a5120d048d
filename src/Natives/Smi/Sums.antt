-- ===== src/Natives/Smi/Sums.antt =====
-- SmiAdd, SmiSub and SmiNegate are exact or refuse.
use dartino_sdk.Base.{
  ◌≡◌, refl, ap, ◌∙◌, true, not, Option, some, arith, if◌then◌else◌, Bool-cases, inl, inr,
}
use dartino_sdk.Int.{ℤ, pos, negsuc, ◌+ℤ◌, ◌-ℤ◌, ◌*ℤ◌, in_word, wrap, shift_right, InWord}
use dartino_sdk.Natives.{Object, Failure, Result, is_valid}
use dartino_sdk.Natives.Bits.{add_overflow_lem, sub_overflow_lem}
use dartino_sdk.Natives.Smi.{smi_add, smi_sub, smi_negate, tagged, from_tagged}

-- An exact result if it is a Smi, and otherwise the failure.
abbrev pub ExactOr : Failure → ℤ → Option Result → Type 0
ExactOr f v r = r ≡ some (if is_valid v then Result.value (Object.smi v) else Result.failure f)

pub tagged-InWord : (x : ℤ) → is_valid x ≡ true → InWord (tagged x)
unfolding ◌*ℤ◌
tagged-InWord (pos n) h = ground arith
tagged-InWord (negsuc n) h = ground arith

tagged_sum : (x y : ℤ) → tagged x +ℤ tagged y ≡ tagged (x +ℤ y)
unfolding ◌*ℤ◌ ◌+ℤ◌
tagged_sum x y = ground arith

tagged_difference : (x y : ℤ) → tagged x -ℤ tagged y ≡ tagged (x -ℤ y)
unfolding ◌*ℤ◌ ◌-ℤ◌
tagged_difference x y = ground arith

-- A tagged word is in range just if the value is a Smi, and then it gives the value back.
tagged_range : (v : ℤ) → in_word (tagged v) ≡ is_valid v
unfolding ◌*ℤ◌
tagged_range (pos n) = ground arith
tagged_range (negsuc n) = ground arith

pub untagged : (v : ℤ) → is_valid v ≡ true → shift_right (wrap (tagged v)) 1 ≡ v
unfolding ◌*ℤ◌
untagged (pos n) h = ground arith
untagged (negsuc n) h = ground arith

pub from_exact :
    (v : ℤ)
    → ExactOr Failure.wrong_argument_type v (
        some (
          if not (in_word (tagged v))
          then Result.failure Failure.wrong_argument_type
          else from_tagged (wrap (tagged v))))
from_exact v = elim (Bool-cases (is_valid v)) [
  | inl e ↦ rw (tagged_range v, e) (ap (λ w. some (Result.value (Object.smi w))) (untagged v e))
  | inr e ↦ rw (tagged_range v, e) refl
]

pub smi_add_lem :
    (x y : ℤ)
    → is_valid x ≡ true
    → is_valid y ≡ true
    → ExactOr Failure.wrong_argument_type (x +ℤ y) (smi_add (Object.smi x) (Object.smi y))
unfolding smi_add
smi_add_lem x y h k =
    ap (λ r. some (if r.0 then Result.failure Failure.wrong_argument_type else from_tagged r.1))
      (add_overflow_lem (tagged x) (tagged y) (tagged-InWord x h) (tagged-InWord y k)
        ∙ ap (λ w. (not (in_word w), wrap w)) (tagged_sum x y))
    ∙ from_exact (x +ℤ y)

pub smi_sub_lem :
    (x y : ℤ)
    → is_valid x ≡ true
    → is_valid y ≡ true
    → ExactOr Failure.wrong_argument_type (x -ℤ y) (smi_sub (Object.smi x) (Object.smi y))
unfolding smi_sub
smi_sub_lem x y h k =
    ap (λ r. some (if r.0 then Result.failure Failure.wrong_argument_type else from_tagged r.1))
      (sub_overflow_lem (tagged x) (tagged y) (tagged-InWord x h) (tagged-InWord y k)
        ∙ ap (λ w. (not (in_word w), wrap w)) (tagged_difference x y))
    ∙ from_exact (x -ℤ y)

pub smi_negate_lem :
    (x : ℤ)
    → is_valid x ≡ true
    → ExactOr Failure.index_out_of_bounds (pos 0 -ℤ x) (smi_negate (Object.smi x))
unfolding smi_negate ◌-ℤ◌
smi_negate_lem (pos n) h = ground arith
smi_negate_lem (negsuc n) h = ground arith

-- SmiAdd, SmiSub and SmiNegate of two Smis in range give the exact result if it is a Smi, and
-- the failure that Dart code goes on with if it is not.
pub smi_sums_lem :
    (x y : ℤ)
    → is_valid x ≡ true
    → is_valid y ≡ true
    → ExactOr Failure.wrong_argument_type (x +ℤ y) (smi_add (Object.smi x) (Object.smi y))
      × ExactOr Failure.wrong_argument_type (x -ℤ y) (smi_sub (Object.smi x) (Object.smi y))
      × ExactOr Failure.index_out_of_bounds (pos 0 -ℤ x) (smi_negate (Object.smi x))
smi_sums_lem x y h k = (smi_add_lem x y h k, smi_sub_lem x y h k, smi_negate_lem x h)
