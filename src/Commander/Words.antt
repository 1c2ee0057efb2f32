-- ===== src/Commander/Words.antt =====
-- The methods of Rust's `str` and slices of texts that the commander uses.
use Prim.Native.String.{[], ◌∷◌, ◌++◌}
use mathlib.Core.List.{List}
use funtonic.Base.{String, Bool, ◌||◌, ◌==◌}

unfoldable pub ends_with : String → String → Bool
ends_with [] t = t == ""
ends_with (c ∷ s) t = let rest = ends_with s t in ((c ∷ s) == t) || rest

-- `join(" ")`
unfoldable pub join : List String → String
join List.[] = ""
join (List.◌∷◌ w List.[]) = w
join (List.◌∷◌ w (List.◌∷◌ v ws)) = w ++ " " ++ join (List.◌∷◌ v ws)
