-- ===== src/Prelude/Texts.antt =====
-- The order of texts, by their characters.
use Prim.Native.Char.{code}
use Prim.Native.String.{String}
use mathlib.Core.Bool.{Bool, true, false, ◌&&◌}
use tir_base.Prelude.Tests.{ltb, eqb, if◌then◌else◌}

-- the order of `&str`
unfoldable pub str_leb : String → String → Bool
str_leb String.[] t = true
str_leb (String.◌∷◌ c s) String.[] = false
str_leb (String.◌∷◌ c s) (String.◌∷◌ d t) =
    let rest = str_leb s t in if ltb (code c) (code d) then true else eqb (code c) (code d) && rest
