-- ===== src/Http/Paths.antt =====
-- The texts of paths, as internal/httpapi/server.go takes them apart.
use Prim.Native.Char.{Char, code}
use forge_mini.Base.{String, Option, none, some, List, [], ◌∷◌, ◌==◌, if◌then◌else◌}

-- what is left of a text behind a prefix, none where it does not begin with it
unfoldable pub behind : String → String → Option String
behind String.[] s = some s
behind (String.◌∷◌ c prefix) String.[] = none
behind (String.◌∷◌ c prefix) (String.◌∷◌ d s) =
    let rest = behind prefix s in if code c == code d then rest else none

-- `strings.TrimPrefix`
unfoldable pub trim_prefix : String → String → String
unfolding behind
trim_prefix s prefix = elim (behind prefix s) [ some rest ↦ rest | none ↦ s ]

-- `c` in front of the first part
unfoldable pub push_first : Char → List String → List String
push_first c [] = String.◌∷◌ c String.[] ∷ []
push_first c (part ∷ parts) = String.◌∷◌ c part ∷ parts

-- `strings.Split(s, "/")`
unfoldable pub split_slash : String → List String
unfolding push_first
split_slash String.[] = "" ∷ []
split_slash (String.◌∷◌ c s) =
    let parts = split_slash s in if code c == b'/' then "" ∷ parts else push_first c parts
