-- ===== src/Reports/Lines.antt =====
-- The files that the code appends to, by their paths.
use nimbus_mesh_x.Base.{String, string_eq, Bool, true, false, some, none, List, [], ◌∷◌, ◌++◌}
use nimbus_mesh_x.Base.Dict.{Dict, lookup, get_or, insert}
use nimbus_mesh_x.Json.{Value}

abbrev pub Files : Type 0 → Type 0
Files F = Dict String (List (Value F))

module _ {F : Type 0} where
  -- The lines of a file, none where there is no file.
  abbrev pub lines_of : String → Files F → List (Value F)
  lines_of path files = get_or path [] files

  abbrev pub exists : String → Files F → Bool
  exists path files = elim (lookup path files) [ some lines ↦ true | none ↦ false ]

  -- `path.open("a")` and one write
  unfoldable pub append_line : String → Value F → Files F → Files F
  append_line path line files = insert path (lines_of path files ++ line ∷ []) files
