-- ===== src/Json.antt =====
-- encoding/json as backend/usecase uses it: a decoded value, and decoding into a Go struct. A key
-- is matched as Go matches it, without regard to case; of several matches the last is taken, and a
-- struct under a repeated key is not merged with the earlier one.
use saki_cli.Base.{Bool, Option, none, some, List, [], ◌∷◌, if◌then◌else◌, Text, same, to_lower, ℤ}

mutual
  pub data Json : Type 0 where
    null : Json
    truth : Bool → Json
    int : ℤ → Json
    fraction : Text → Json
    str : Text → Json
    arr : Items → Json
    obj : Fields → Json

  pub data Items : Type 0 where
    nil : Items
    cons : Json → Items → Items

  pub data Fields : Type 0 where
    end : Fields
    field : Text → Json → Fields → Fields

infixl 5 ◌>>=◌
abbrev pub ◌>>=◌ {ℓ κ} : {A : Type ℓ} {B : Type κ} → Option A → (A → Option B) → Option B
none >>= f = none
some a >>= f = f a

abbrev pub or_else {ℓ} : {A : Type ℓ} → Option A → Option A → Option A
or_else (some a) b = some a
or_else none b = b

-- The value of a key of an object: a json.RawMessage field, none where the key is absent.
unfoldable pub get_field : Text → Fields → Option Json
get_field k end = none
get_field k (field j v fs) =
    or_else (get_field k fs) (if same (to_lower j) (to_lower k) then some v else none)

-- A value of type string; null leaves the zero value. The outer none is a decoding error.
unfoldable pub as_text : Option Json → Option Text
as_text none = some []
as_text (some null) = some []
as_text (some (str s)) = some s
as_text (some v) = none

-- A value of a struct type: the fields that the struct is filled from.
unfoldable pub as_struct : Option Json → Option Fields
as_struct none = some end
as_struct (some null) = some end
as_struct (some (obj fs)) = some fs
as_struct (some v) = none

-- A value of type *int.
unfoldable pub as_int : Option Json → Option (Option ℤ)
as_int none = some none
as_int (some null) = some none
as_int (some (int n)) = some (some n)
as_int (some v) = none

-- Each element of an array through a decoder; one error fails the whole array.
unfoldable pub each {ℓ} : {A : Type ℓ} → (Json → Option A) → Items → Option (List A)
each f nil = some []
each f (cons v vs) = do a ← f v; rest ← each f vs; some (a ∷ rest)

-- A value of a slice type.
unfoldable pub as_list {ℓ} : {A : Type ℓ} → (Json → Option A) → Option Json → Option (List A)
unfolding each
as_list f none = some []
as_list f (some null) = some []
as_list f (some (arr vs)) = each f vs
as_list f (some v) = none
