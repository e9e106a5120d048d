-- ===== src/Natives/Names.antt =====
-- src/shared/natives.h: the natives that compute with numbers, by name, in the order of the table. The
-- rows of the natives that parse or print a number are left out: IntParse, SmiToString, MintToString,
-- DoubleToString, DoubleToStringAsExponential, DoubleToStringAsFixed, DoubleToStringAsPrecision and
-- DoubleParse.
pub data ArithmeticNative : Type 0 where
  smi_to_double smi_to_mint smi_negate smi_add smi_sub smi_mul smi_mod smi_div : ArithmeticNative
  smi_trunc_div smi_bit_not smi_bit_and smi_bit_or smi_bit_xor smi_bit_shr smi_bit_shl :
      ArithmeticNative
  smi_equal smi_less smi_less_equal smi_greater smi_greater_equal mint_to_double : ArithmeticNative
  mint_negate mint_add mint_sub mint_mul mint_mod mint_div mint_trunc_div mint_bit_not :
      ArithmeticNative
  mint_bit_and mint_bit_or mint_bit_xor mint_bit_shr mint_bit_shl mint_equal mint_less :
      ArithmeticNative
  mint_less_equal mint_greater mint_greater_equal double_negate double_add double_sub :
      ArithmeticNative
  double_mul double_mod double_div double_trunc_div double_equal double_less : ArithmeticNative
  double_less_equal double_greater double_greater_equal double_is_nan : ArithmeticNative
  double_is_negative double_ceil double_ceil_to_double double_round : ArithmeticNative
  double_round_to_double double_floor double_floor_to_double double_truncate : ArithmeticNative
  double_truncate_to_double double_remainder double_to_int double_sin double_cos : ArithmeticNative
  double_tan double_acos double_asin double_atan double_sqrt double_exp double_log :
      ArithmeticNative
  double_atan2 double_pow : ArithmeticNative
