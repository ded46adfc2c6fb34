-- ===== src/Prelude/Text.antt =====
-- Texts that the code formats.
use Prim.Native.String.{String, ◌++◌}

-- f"{a} {b} {c}"
unfoldable pub spaced : String → String → String → String
spaced a b c = a ++ " " ++ b ++ " " ++ c
