-- ===== src/Json.antt =====
-- The values that `json.loads`, `yaml.safe_load` and `csv.DictReader` return, and what the code does with
-- a value whose type it does not know: `get`, `[…]`, `float`, `int`, `bool`, `or`, iteration.
use nimbus_mesh_x.Base.{
  ℕ, zero, suc, String, string_eq, ◌==◌, Bool, true, false, not, ◌||◌, if◌then◌else◌, List, [], ◌∷◌,
  map, Option, some, none, Result, ok, err, key_error, value_error, type_error, attribute_error,
  overflow_error, unrepresented, or_raise, ◌>>=◌, traverse,
}
use nimbus_mesh_x.Base.Int.{ℤ, pos, negsuc, sub_ℕ}
use nimbus_mesh_x.Base.Dict.{Dict, lookup}
use nimbus_mesh_x.Float.{Float, ◌≤?◌, ◌<?◌, negate, of_ℕ, trunc}

mutual
  pub data Value (F : Type 0) : Type 0 where
    null : Value F
    boolean : Bool → Value F
    integer : ℤ → Value F
    number : F → Value F
    text : String → Value F
    array : Values F → Value F
    object : Members F → Value F

  pub data Values (F : Type 0) : Type 0 where
    no_values : Values F
    next_value : Value F → Values F → Values F

  pub data Members (F : Type 0) : Type 0 where
    no_members : Members F
    member : String → Value F → Members F → Members F

-- How the interpreter reads numbers in texts (nothing where it raises ValueError), and what `str` makes
-- of a value that is no text.
pub record Formats (F : Type 0) : Type 0 where
  pub read_float : String → Option F
  pub read_int : String → Option ℤ
  pub show_value : Value F → String

-- An integer, where the model's records have a place for the natural numbers only.
unfoldable pub natural : ℤ → Result ℕ
natural (pos n) = ok n
natural (negsuc n) = err unrepresented

module _ {F : Type 0} where
  unfoldable pub elements : Values F → List (Value F)
  elements no_values = []
  elements (next_value v vs) = v ∷ elements vs

  unfoldable pub entries : Members F → Dict String (Value F)
  entries no_members = []
  entries (member k v ms) = (k, v) ∷ entries ms

  unfoldable pub of_list : List (Value F) → Values F
  of_list [] = no_values
  of_list (v ∷ vs) = next_value v (of_list vs)

  unfoldable pub of_dict : Dict String (Value F) → Members F
  of_dict [] = no_members
  of_dict ((k, v) ∷ d) = member k v (of_dict d)

  -- The characters of a text, as texts.
  unfoldable pub characters : String → List (Value F)
  characters String.[] = []
  characters (String.◌∷◌ c s) = text (String.◌∷◌ c String.[]) ∷ characters s

  -- `payload.get` of a value that is no dictionary raises.
  unfoldable pub methods : Value F → Result (Dict String (Value F))
  methods (object ms) = ok (entries ms)
  methods _ = err attribute_error

  -- `payload[key]`, with a text for the key
  unfoldable pub subscript : Value F → String → Result (Value F)
  subscript (object ms) key = or_raise (lookup key (entries ms)) key_error
  subscript _ key = err type_error

  -- `for item in value`
  unfoldable pub iterate : Value F → Result (List (Value F))
  iterate (array vs) = ok (elements vs)
  iterate (object ms) = ok (map (λ p. text p.0) (entries ms))
  iterate (text s) = ok (characters s)
  iterate _ = err type_error

  -- A text, where the model's records have a place for nothing else.
  unfoldable pub text_of : Value F → Result String
  text_of (text s) = ok s
  text_of _ = err unrepresented

  -- A text or None.
  unfoldable pub text_or_none : Value F → Result (Option String)
  text_or_none (text s) = ok (some s)
  text_or_none null = ok none
  text_or_none _ = err unrepresented

module _ {F : Type 0} ⦃f : Float F⦄ where
  -- the truth value
  unfoldable pub truth : Value F → Bool
  truth null = false
  truth (boolean b) = b
  truth (integer (pos zero)) = false
  truth (integer (pos (suc n))) = true
  truth (integer (negsuc n)) = true
  truth (number x) = x <? of_ℕ 0 || of_ℕ 0 <? x
  truth (text s) = not (s == "")
  truth (array no_values) = false
  truth (array (next_value v vs)) = true
  truth (object no_members) = false
  truth (object (member k v ms)) = true

  infixr 20 ◌or◌
  -- `v or w`
  abbrev pub ◌or◌ : Value F → Value F → Value F
  v or w = if truth v then v else w

  -- `float(n)` of an integer
  unfoldable pub of_ℤ : ℤ → F
  of_ℤ (pos n) = of_ℕ n
  of_ℤ (negsuc n) = negate (of_ℕ (suc n))

  -- `int(x)` of a float: it truncates towards zero.
  unfoldable pub truncate : F → Result ℤ
  truncate x =
      if f.infinity ≤? x || x ≤? negate f.infinity
      then err overflow_error
      else ok (if x <? of_ℕ 0 then sub_ℕ 0 (trunc (negate x)) else pos (trunc x))

module _ {F : Type 0} ⦃f : Float F⦄ (formats : Formats F) where
  -- `float(value)`
  unfoldable pub to_float : Value F → Result F
  to_float (boolean true) = ok (of_ℕ 1)
  to_float (boolean false) = ok (of_ℕ 0)
  to_float (integer n) = ok (of_ℤ n)
  to_float (number x) = ok x
  to_float (text s) = or_raise (formats.read_float s) value_error
  to_float _ = err type_error

  -- `int(value)`
  unfoldable pub to_int : Value F → Result ℤ
  to_int (boolean true) = ok (pos 1)
  to_int (boolean false) = ok (pos 0)
  to_int (integer n) = ok n
  to_int (number x) = truncate x
  to_int (text s) = or_raise (formats.read_int s) value_error
  to_int _ = err type_error

  -- `str(value)`
  unfoldable pub to_text : Value F → String
  to_text (text s) = s
  to_text v = formats.show_value v

  -- `{k: float(v) for k, v in value.elements()}`
  unfoldable pub float_items : Value F → Result (Dict String F)
  float_items value = methods value >>= λ d. traverse (λ p. to_float p.1 >>= λ x. ok (p.0, x)) d
