-- ===== src/Wql/Types.antt =====
-- `Types`, the values of the query language: wql/src/lib.rs. A float is its 64 bits, with the
-- operations of the machine as a parameter; a DateTime and an Uuid are numbers.
use Prim.Native.Nat.{Ordering, compare}
use wooridb.Base.{
  ℕ, Bool, true, false, ◌&&◌, Option, none, some, [], ◌∷◌, Text, text, text_eq, nat_eq,
  if◌then◌else◌, suc,
}
use wooridb.Base.Map.{Map}
use wooridb.Base.Int.{ℤ, pos, compare_ℤ}

abbrev pub Uuid : Type 0
Uuid = ℕ

abbrev pub DateTime : Type 0
DateTime = ℕ

-- f64, which the machine implements
pub record Float64 : Type 0 where
  pub eq : ℕ → ℕ → Bool
  pub lt : ℕ → ℕ → Bool
  pub le : ℕ → ℕ → Bool
  pub add : ℕ → ℕ → ℕ
  pub of_int : ℤ → ℕ

mutual
  pub data Types : Type 0 where
    char : ℕ → Types
    integer : ℤ → Types
    string : Text → Types
    uuid : Uuid → Types
    float : ℕ → Types
    boolean : Bool → Types
    vector : Items → Types
    map : Fields → Types
    hash : Text → Types
    precise : Text → Types
    date_time : DateTime → Types
    nil : Types

  -- Vec<Types>
  pub data Items : Type 0 where
    end : Items
    item : Types → Items → Items

  -- HashMap<String, Types>, inside a value
  pub data Fields : Type 0 where
    empty : Fields
    field : Text → Types → Fields → Fields

abbrev pub Entity : Type 0
Entity = Map Text Types

unfoldable pub is_hash : Types → Bool
is_hash (hash h) = true
is_hash _ = false

-- `fresh` and `now` are what Uuid::new_v4 and Utc::now return.
unfoldable pub default_values : Uuid → DateTime → Types → Types
default_values fresh now (char c) = char 32
default_values fresh now (integer i) = integer (pos 0)
default_values fresh now (string s) = string []
default_values fresh now (uuid u) = uuid fresh
default_values fresh now (float f) = float 0
default_values fresh now (boolean b) = boolean false
default_values fresh now (vector v) = vector end
default_values fresh now (map m) = map empty
default_values fresh now (hash h) = hash []
default_values fresh now (precise p) = precise (text "0")
default_values fresh now (date_time d) = date_time now
default_values fresh now nil = nil

unfoldable pub length_items : Items → ℕ
length_items end = 0
length_items (item x xs) = suc (length_items xs)

unfoldable pub append_items : Items → Items → Items
append_items end ys = ys
append_items (item x xs) ys = item x (append_items xs ys)

unfoldable pub length_fields : Fields → ℕ
length_fields empty = 0
length_fields (field k v m) = suc (length_fields m)

unfoldable pub get_field : Text → Fields → Option Types
get_field k empty = none
get_field k (field j v m) = if text_eq j k then some v else get_field k m

unfoldable pub insert_field : Text → Types → Fields → Fields
insert_field k v empty = field k v empty
insert_field k v (field j w m) =
    let rest = insert_field k v m in if text_eq j k then field j v m else field j w rest

-- The derived PartialEq. Maps are equal if they have as many pairs and each of one is in the other.
abbrev both : (Types → Bool) → Option Types → Bool
both eq none = false
both eq (some w) = eq w

unfoldable mutual
  pub types_eq : Float64 → Types → Types → Bool
  types_eq f (char a) (char b) = nat_eq a b
  types_eq f (integer a) (integer b) = elim (compare_ℤ a b) [ Ordering.eq ↦ true | _ ↦ false ]
  types_eq f (string a) (string b) = text_eq a b
  types_eq f (uuid a) (uuid b) = nat_eq a b
  types_eq f (float a) (float b) = f.eq a b
  types_eq f (boolean true) (boolean b) = b
  types_eq f (boolean false) (boolean true) = false
  types_eq f (boolean false) (boolean false) = true
  types_eq f (vector a) (vector b) = items_eq f a b
  types_eq f (map a) (map b) = nat_eq (length_fields a) (length_fields b) && fields_eq f a b
  types_eq f (hash a) (hash b) = text_eq a b
  types_eq f (precise a) (precise b) = text_eq a b
  types_eq f (date_time a) (date_time b) = nat_eq a b
  types_eq f nil nil = true
  types_eq f _ _ = false

  pub items_eq : Float64 → Items → Items → Bool
  items_eq f end end = true
  items_eq f (item x xs) (item y ys) = types_eq f x y && items_eq f xs ys
  items_eq f _ _ = false

  pub fields_eq : Float64 → Fields → Fields → Bool
  fields_eq f empty b = true
  fields_eq f (field k v m) b = both (types_eq f v) (get_field k b) && fields_eq f m b

unfoldable pub compare_text : Text → Text → Ordering
compare_text [] [] = Ordering.eq
compare_text [] (b ∷ t) = Ordering.lt
compare_text (a ∷ s) [] = Ordering.gt
compare_text (a ∷ s) (b ∷ t) =
    let rest = compare_text s t in
    elim (compare a b) [
      | Ordering.lt ↦ Ordering.lt
      | Ordering.eq ↦ rest
      | Ordering.gt ↦ Ordering.gt
    ]

unfoldable pub compare_bool : Bool → Bool → Ordering
compare_bool false true = Ordering.lt
compare_bool true false = Ordering.gt
compare_bool _ _ = Ordering.eq

abbrev greater_or_less : Bool → Ordering
greater_or_less true = Ordering.gt
greater_or_less false = Ordering.lt

-- PartialOrd: `a > b` on floats is `b < a` of the machine.
unfoldable pub partial_cmp : Float64 → Types → Types → Option Ordering
unfolding compare_ℤ compare_text compare_bool length_items
partial_cmp f (integer a) (integer b) = some (compare_ℤ a b)
partial_cmp f (float a) (float b) = some (greater_or_less (f.lt b a))
partial_cmp f (integer a) (float b) = some (greater_or_less (f.lt b (f.of_int a)))
partial_cmp f (float a) (integer b) = some (greater_or_less (f.lt (f.of_int b) a))
partial_cmp f (char a) (char b) = some (compare a b)
partial_cmp f (string a) (string b) = some (compare_text a b)
partial_cmp f (precise a) (precise b) = some (compare_text a b)
partial_cmp f (uuid a) (uuid b) = some (compare a b)
partial_cmp f (boolean a) (boolean b) = some (compare_bool a b)
partial_cmp f (vector a) (vector b) = some (compare (length_items a) (length_items b))
partial_cmp f _ _ = none
