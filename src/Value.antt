-- ===== src/Value.antt =====
-- The JSON values of event payloads and of reducer states, and what Python does with them: truth
-- value, equality with a text, hashing, iteration, `list(v)` and `v[key]`. Numbers are integers;
-- floating-point numbers are not modelled. Keys of a dict are compared as values, so that `True`
-- and `1`, which Python takes for one key, are two.
use rationale_vault.Prelude.{
  ℕ, zero, suc, String, Bool, true, false, not, Option, none, some, List, [], ◌∷◌, Result, ok,
  raise, type_error, key_error, ◌>>=◌, ℕ_discrete, ◌==◌, text_discrete, str_eq, if◌then◌else◌, ◌≡◌,
  refl, ap,
}
use rationale_vault.Prelude.Dict
use rationale_vault.Prelude.Dict.{Dict}

-- `negsuc n` is -(n + 1).
pub data ℤ : Type 0 where
  pos negsuc : ℕ → ℤ

mutual
  pub data Fields : Type 0 where
    no_fields : Fields
    field : String → Value → Fields → Fields

  pub data Items : Type 0 where
    no_items : Items
    one_item : Value → Items → Items

  pub data Value : Type 0 where
    obj : Fields → Value
    arr : Items → Value
    text : String → Value
    num : ℤ → Value
    bool : Bool → Value
    null : Value

unfoldable pub Value_discrete : Discrete Value
Value_discrete = hlevel (ℕ_discrete, text_discrete)

unfoldable pub ℤ_discrete : Discrete ℤ
ℤ_discrete = hlevel ℕ_discrete

unfoldable pub same_int : ℤ → ℤ → Bool
same_int (pos m) (pos n) = m == n
same_int (negsuc m) (negsuc n) = m == n
same_int _ _ = false

-- `v == i` for an integer `i`; `True` is 1 and `False` is 0.
unfoldable pub is_int : ℤ → Value → Bool
is_int i (num j) = same_int i j
is_int i (bool b) = same_int i (pos (if b then 1 else 0))
is_int i v = false

-- A payload: a JSON object.
abbrev pub Payload : Type 0
Payload = Dict String Value

unfoldable pub to_list : Items → List Value
to_list no_items = []
to_list (one_item v vs) = v ∷ to_list vs

unfoldable pub from_list : List Value → Items
from_list [] = no_items
from_list (v ∷ vs) = one_item v (from_list vs)

pub from_list-to_list : (xs : Items) → from_list (to_list xs) ≡ xs
unfolding from_list to_list
from_list-to_list no_items = refl
from_list-to_list (one_item v vs) = ap (one_item v) (from_list-to_list vs)

unfoldable pub to_fields : Dict String Value → Fields
to_fields [] = no_fields
to_fields ((k, v) ∷ d) = field k v (to_fields d)

-- `if v:`
unfoldable pub truthy : Value → Bool
truthy null = false
truthy (bool b) = b
truthy (num (pos zero)) = false
truthy (num (pos (suc n))) = true
truthy (num (negsuc n)) = true
truthy (text s) = not (str_eq s "")
truthy (arr no_items) = false
truthy (arr (one_item v vs)) = true
truthy (obj no_fields) = false
truthy (obj (field k v fs)) = true

-- `v == s` for a text `s`
unfoldable pub is_text : String → Value → Bool
is_text s (text t) = str_eq t s
is_text s v = false

-- Lists and dicts cannot be keys of a dict or members of a set.
unfoldable pub hashable : Value → Bool
hashable (arr vs) = false
hashable (obj fs) = false
hashable v = true

-- The characters of a text, each a text.
unfoldable pub characters : String → List Value
characters String.[] = []
characters (String.◌∷◌ c s) = text (String.◌∷◌ c String.[]) ∷ characters s

unfoldable pub field_names : Fields → List Value
field_names no_fields = []
field_names (field k v fs) = text k ∷ field_names fs

-- `for x in v:`
unfoldable pub iterate : Value → Result (List Value)
iterate (arr vs) = ok (to_list vs)
iterate (text s) = ok (characters s)
iterate (obj fs) = ok (field_names fs)
iterate v = raise type_error

-- `list(v)`
unfoldable pub list_of : Value → Result Value
list_of v = do xs ← iterate v; ok (arr (from_list xs))

unfoldable pub find_field : String → Fields → Option Value
find_field k no_fields = none
find_field k (field j v fs) = if str_eq j k then some v else find_field k fs

-- `v[k]` for a text `k`
unfoldable pub subscript : Value → String → Result Value
subscript (obj fs) k = elim (find_field k fs) [ none ↦ raise key_error | some v ↦ ok v ]
subscript v k = raise type_error

-- `p.get(k)`, `p.get(k, default)` and `p[k]`
unfoldable pub lookup : Payload → String → Value
lookup p k = elim (Dict.get text_discrete k p) [ none ↦ null | some v ↦ v ]

unfoldable pub lookup_or : Payload → String → Value → Value
lookup_or p k default = elim (Dict.get text_discrete k p) [ none ↦ default | some v ↦ v ]

unfoldable pub item : Payload → String → Result Value
item p k = elim (Dict.get text_discrete k p) [ none ↦ raise key_error | some v ↦ ok v ]

abbrev pub empty_list : Value
empty_list = arr no_items

-- What holds a list: `list(v)` gives it back.
abbrev pub IsList : Value → Type 0
IsList (arr vs) = Unit
IsList _ = ⊥

pub list_of_lem : (v : Value) → IsList v → list_of v ≡ ok v
unfolding list_of iterate
list_of_lem (arr vs) h = ap (λ xs. ok (arr xs)) (from_list-to_list vs)
list_of_lem null h = absurd h
list_of_lem (bool b) h = absurd h
list_of_lem (num n) h = absurd h
list_of_lem (text s) h = absurd h
list_of_lem (obj fs) h = absurd h
