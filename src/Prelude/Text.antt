-- ===== src/Prelude/Text.antt =====
-- Strings of the tests as bytes.
use Prim.Native.String.{String}
use Prim.Native.Char.{code}
use mathlib.Core.List.{[], ◌∷◌}
use vyper.Prelude.Results.{Bytes}

abbrev pub bytes : String → Bytes
bytes String.[] = []
bytes (String.◌∷◌ c s) = code c ∷ bytes s
