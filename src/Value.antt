-- ===== src/Value.antt =====
-- The values of the dynamic language that the event data, the messages and the state channels of
-- core/ are made of, with the operations that the code performs on them.
pub mod Errors
pub mod Laws
use harness_runtime.Base.{
  ℕ, suc, String, Bool, true, false, not, ◌&&◌, ◌||◌, Option, none, some, List, [], ◌∷◌, map,
  nat_eq, ◌==◌, if◌then◌else◌, get_or, length,
}

-- Integers are the non-negative ones: counts and token numbers. `object` is an instance of a class:
-- its class name and its attributes.
mutual
  pub data Value : Type 0 where
    null : Value
    bool : Bool → Value
    num : ℕ → Value
    str : String → Value
    list : Items → Value
    tuple : Items → Value
    dict : Fields → Value
    object : String → Fields → Value

  pub data Items : Type 0 where
    nil : Items
    cons : Value → Items → Items

  pub data Fields : Type 0 where
    end : Fields
    field : String → Value → Fields → Fields

abbrev pub elements : Items → List Value
elements nil = []
elements (cons x xs) = x ∷ elements xs

abbrev pub items : List Value → Items
items [] = nil
items (x ∷ xs) = cons x (items xs)

-- A list of values as a value.
abbrev pub list_of : List Value → Value
list_of xs = list (items xs)

abbrev pub texts_value : List String → Value
texts_value xs = list_of (map str xs)

abbrev pub keys : Fields → List String
keys end = []
keys (field k v fs) = k ∷ keys fs

-- `d.get(k)` of a dict's entries.
abbrev pub lookup : String → Fields → Option Value
lookup k end = none
lookup k (field j v fs) = if j == k then some v else lookup k fs

-- `d[k] = v`: a known key keeps its place.
abbrev pub insert : String → Value → Fields → Fields
insert k v end = field k v end
insert k v (field j w fs) = if j == k then field k v fs else field j w (insert k v fs)

-- `{**d, **e}` and `d.update(e)`
abbrev pub update : Fields → Fields → Fields
update fs end = fs
update fs (field k v gs) = update (insert k v fs) gs

abbrev pub is_member : String → Fields → Bool
is_member k end = false
is_member k (field j v fs) = j == k || is_member k fs

-- Python's truth test.
unfoldable pub truthy : Value → Bool
truthy null = false
truthy (bool b) = b
truthy (num n) = not (nat_eq n 0)
truthy (str s) = not (s == "")
truthy (list nil) = false
truthy (list (cons x xs)) = true
truthy (tuple nil) = false
truthy (tuple (cons x xs)) = true
truthy (dict end) = false
truthy (dict (field k v fs)) = true
truthy (object c fs) = true

-- `a or b`
abbrev pub or_else : Value → Value → Value
or_else a b = if truthy a then a else b

-- An optional value under the truth test: a missing key is `None`.
abbrev pub or_null : Option Value → Value
or_null o = get_or o null

abbrev pub is_dict : Value → Bool
is_dict (dict fs) = true
is_dict _ = false

abbrev pub is_list : Value → Bool
is_list (list xs) = true
is_list _ = false

abbrev pub is_str : Value → Bool
is_str (str s) = true
is_str _ = false

-- The entries of a dict; of any other value none. Used behind an `isinstance(v, dict)` test.
abbrev pub entries : Value → Fields
entries (dict fs) = fs
entries _ = end

-- The elements of a list; of any other value none. Used behind an `isinstance(v, list)` test.
abbrev pub members : Value → List Value
members (list xs) = elements xs
members _ = []

-- The text of a text; of any other value "". Used behind an `isinstance(v, str)` test.
abbrev pub text : Value → String
text (str s) = s
text _ = ""

-- `v == "..."`
abbrev pub equals : Value → String → Bool
equals (str s) t = s == t
equals _ t = false

-- `getattr(v, k, None)`
abbrev pub attribute : String → Value → Value
attribute k (object c fs) = or_null (lookup k fs)
attribute k _ = null

-- `isinstance(v, C)`, for a class without subclasses among the values
abbrev pub is_instance : String → Value → Bool
is_instance c (object d fs) = d == c
is_instance c _ = false

abbrev bit : Bool → ℕ
bit true = 1
bit false = 0

abbrev count : Fields → ℕ
count end = 0
count (field k v fs) = suc (count fs)

-- Python's `==`: dicts compare without regard to order, and `True == 1`.
unfoldable mutual
  pub same : Value → Value → Bool
  same null null = true
  same (bool a) (bool b) = nat_eq (bit a) (bit b)
  same (bool a) (num n) = nat_eq (bit a) n
  same (num n) (bool b) = nat_eq n (bit b)
  same (num n) (num m) = nat_eq n m
  same (str s) (str t) = s == t
  same (list xs) (list ys) = same_items xs ys
  same (tuple xs) (tuple ys) = same_items xs ys
  same (dict fs) (dict gs) = nat_eq (count fs) (count gs) && same_fields fs gs
  same (object c fs) (object d gs) = c == d && nat_eq (count fs) (count gs) && same_fields fs gs
  same _ _ = false

  pub same_items : Items → Items → Bool
  same_items nil nil = true
  same_items (cons x xs) (cons y ys) = same x y && same_items xs ys
  same_items _ _ = false

  pub same_fields : Fields → Fields → Bool
  same_fields end gs = true
  same_fields (field k v fs) gs =
      same v (or_null (lookup k gs)) && is_member k gs && same_fields fs gs
