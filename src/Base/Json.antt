-- ===== src/Base/Json.antt =====
-- encoding/json, as the program uses it: the tree that a text stands for, and how
-- `json.Unmarshal` walks the members of an object into the fields of a struct.
use Prim.Native.Nat.{ℕ, ◌+◌}
use Prim.Native.Char.{code}
use Prim.Native.String.{String}
use mathlib.Core.Bool.{Bool, true, false, ◌&&◌}
use mathlib.Core.Option.{Option, none, some}
use mathlib.Core.List.{List, [], ◌∷◌}
use go_service_bao_fight.Base.Tests.{◌==◌, leb, if◌then◌else◌, str_eq}

-- A number that is no natural number (a fraction, a negative one) keeps its text.
mutual
  pub data Json : Type 0 where
    null : Json
    boolean : Bool → Json
    num : ℕ → Json
    other_num : String → Json
    str : String → Json
    arr : Items → Json
    obj : Fields → Json

  pub data Items : Type 0 where
    nil : Items
    cons : Json → Items → Items

  pub data Fields : Type 0 where
    end : Fields
    field : String → Json → Fields → Fields

-- The members of two objects, one after the other.
abbrev pub append : Fields → Fields → Fields
append end gs = gs
append (field k v fs) gs = field k v (append fs gs)

-- The case folding that matches an object's key with a struct's tag: of the code points that
-- fold to an ASCII letter only U+017F (to s) and U+212A (to k) are not ASCII themselves.
unfoldable pub fold_rune : ℕ → ℕ
fold_rune c =
    if leb b'A' c && leb c b'Z'
    then c + 32
    else if c == 0x17F
    then b's'
    else if c == 0x212A
    then b'k'
    else c

abbrev folded : String → List ℕ
folded String.[] = []
folded (String.◌∷◌ c s) = fold_rune (code c) ∷ folded s

abbrev same_codes : List ℕ → List ℕ → Bool
same_codes [] [] = true
same_codes (a ∷ as') (b ∷ bs) = a == b && same_codes as' bs
same_codes _ _ = false

-- Whether a key of the input names the field with this tag.
unfoldable pub key_is : String → String → Bool
unfolding fold_rune
key_is key tag = same_codes (folded key) (folded tag)

-- Each member in turn sets the field that its key names. A member that does not fit its field is
-- an error of the whole call, as the callers discard what was decoded beside an error.
unfoldable pub decode_fields {ℓ} :
    {A : Type ℓ} → (String → Json → A → Option A) → Fields → A → Option A
decode_fields set end a = some a
decode_fields set (field k v fs) a = elim (set k v a) [
  | none ↦ none
  | some a' ↦ decode_fields set fs a'
]

-- `json.Unmarshal` into a struct that holds `a`: an object sets its fields, `null` changes nothing
-- and anything else is an error.
unfoldable pub decode_struct {ℓ} :
    {A : Type ℓ} → (String → Json → A → Option A) → A → Json → Option A
unfolding decode_fields
decode_struct set a (obj fs) = decode_fields set fs a
decode_struct set a null = some a
decode_struct set a _ = none

-- The value of a key of a Go map that was filled by the members in order: the last one wins.
unfoldable pub get_key : String → Fields → Option Json
get_key k end = none
get_key k (field j v fs) = elim (get_key k fs) [
  | some w ↦ some w
  | none ↦ if str_eq j k then some v else none
]
