-- ===== src/Base/Json.antt =====
-- The values of a dynamic call: what `json` reads and writes. A dict is its items in order, with
-- texts for keys; of a float the model keeps an identity and whether it is finite.
use Prim.Native.Nat.{ℕ}
use Prim.Native.String.{String}
use mathlib.Core.Bool.{Bool, true, false}
use mathlib.Core.Option.{Option, none, some}
use mathlib.Core.List.{List, [], ◌∷◌}
use math_anchor.Base.Int.{ℤ}
use math_anchor.Base.Tests.{if◌then◌else◌}
pub use text.Mathlib.Text.{◌==◌ as str_eq}

mutual
  pub data Json : Type 0 where
    null : Json
    boolean : Bool → Json
    integer : ℤ → Json
    float : ℕ → Bool → Json
    string : String → Json
    array : Items → Json
    object : Fields → Json

  pub data Items : Type 0 where
    nil : Items
    cons : Json → Items → Items

  pub data Fields : Type 0 where
    end : Fields
    field : String → Json → Fields → Fields

abbrev pub to_list : Items → List Json
to_list nil = []
to_list (cons x xs) = x ∷ to_list xs

abbrev pub of_list : List Json → Items
of_list [] = nil
of_list (x ∷ xs) = cons x (of_list xs)

abbrev pub get_field : String → Fields → Option Json
get_field k end = none
get_field k (field j v fs) = if str_eq j k then some v else get_field k fs

-- d.get(k), for a value that is a dict
abbrev pub get : String → Json → Option Json
get k (object fs) = get_field k fs
get k _ = none

abbrev pub drop_field : String → Fields → Fields
drop_field k end = end
drop_field k (field j v fs) = if str_eq j k then drop_field k fs else field j v (drop_field k fs)

-- {key: value for key, value in d.items() if key != k}
abbrev pub without : String → Json → Json
without k (object fs) = object (drop_field k fs)
without k v = v

abbrev pub is_object : Json → Bool
is_object (object fs) = true
is_object _ = false

abbrev pub bool_eq : Bool → Bool → Bool
bool_eq true true = true
bool_eq false false = true
bool_eq _ _ = false

-- d.get(k, null)
abbrev pub or_null : Option Json → Json
or_null none = null
or_null (some v) = v

-- v is True
abbrev pub is_true : Option Json → Bool
is_true (some (boolean true)) = true
is_true _ = false

-- v == s, for a text s
abbrev pub is_text : Option Json → String → Bool
is_text (some (string t)) s = str_eq t s
is_text _ s = false
