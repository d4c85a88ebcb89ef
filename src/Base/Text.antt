-- ===== src/Base/Text.antt =====
-- `str(n)` and `f"{n:06d}"` of a number that is not negative.
use Prim.Native.Nat.{ℕ, zero, suc, ◌/◌, ◌%◌, ◌-◌}
use Prim.Native.String.{String, ◌++◌, len}
use mathlib.Core.List.{List, [], ◌∷◌}
use nimbus_mesh_x.Base.Tests.{ltb, if◌then◌else◌}
use nimbus_mesh_x.Base.Lists.{get_or}

abbrev digit_texts : List String
digit_texts = "0" ∷ "1" ∷ "2" ∷ "3" ∷ "4" ∷ "5" ∷ "6" ∷ "7" ∷ "8" ∷ "9" ∷ []

-- A number below ten to the fuel is written in full.
show_fuel : ℕ → ℕ → String
show_fuel zero n = ""
show_fuel (suc fuel) n =
    let last = get_or digit_texts (n % 10) "" in
    let front = show_fuel fuel (n / 10) in if ltb n 10 then last else front ++ last

unfoldable pub show : ℕ → String
unfolding show_fuel
show n = show_fuel (suc n) n

zeros : ℕ → String
zeros zero = ""
zeros (suc n) = "0" ++ zeros n

unfoldable pub show_padded : ℕ → ℕ → String
unfolding show zeros
show_padded width n = let text = show n in zeros (width - len text) ++ text
