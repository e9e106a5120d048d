-- ===== src/Base/Texts.antt =====
-- Texts under a name of their own, beside the lists' `++`.
use Prim.Native.String.{String, ◌++◌}

abbrev pub join : String → String → String
join a b = a ++ b
