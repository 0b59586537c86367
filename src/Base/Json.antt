-- ===== src/Base/Json.antt =====
-- The values that JSON texts and the program's untyped records hold, and `JSON.stringify`.
-- Numbers are whole, or NaN; an object lists its fields in insertion order.
use micro_agent_protocol.Base.Tests.{Bool-cases, ltb, ◌==◌, if◌then◌else◌}
use micro_agent_protocol.Base.Text.{str_eq, codes}
use Prim.Native.Nat.{ℕ, zero, suc, ◌+◌, ◌/◌, ◌%◌, ◌<◌, ◌≤◌}
use Prim.Native.String.{String}
use mathlib.Core.Path.{◌≡◌, refl}
use mathlib.Core.Logic.{◌↔◌, inl, inr}
use native.Mathlib.Omega.{arith}
use mathlib.Core.Bool.{Bool, true, false, ◌&&◌}
use mathlib.Core.List.{List, [], ◌∷◌, ◌++◌}

-- `negsuc n` is -(n + 1).
pub data ℤ : Type 0 where
  pos : ℕ → ℤ
  negsuc : ℕ → ℤ

pub data Number : Type 0 where
  nan : Number
  int : ℤ → Number

mutual
  pub data Value : Type 0 where
    undefined null : Value
    boolean : Bool → Value
    number : Number → Value
    text : String → Value
    array : Items → Value
    object : Fields → Value

  pub data Items : Type 0 where
    nil : Items
    cons : Value → Items → Items

  pub data Fields : Type 0 where
    end : Fields
    field : String → Value → Fields → Fields

-- An object literal.
abbrev pub fields_of : List (String × Value) → Fields
fields_of [] = end
fields_of ((k, v) ∷ kvs) = field k v (fields_of kvs)

abbrev pub object_of : List (String × Value) → Value
object_of kvs = object (fields_of kvs)

-- `a === b` and `a < b` on whole numbers.
abbrev pub int_eq : ℤ → ℤ → Bool
int_eq (pos a) (pos b) = a == b
int_eq (negsuc a) (negsuc b) = a == b
int_eq _ _ = false

abbrev pub int_lt : ℤ → ℤ → Bool
int_lt (pos a) (pos b) = ltb a b
int_lt (pos a) (negsuc b) = false
int_lt (negsuc a) (pos b) = true
int_lt (negsuc a) (negsuc b) = ltb b a

-- `o[key]` on the fields of an object.
unfoldable pub lookup : String → Fields → Value
lookup k end = Value.undefined
lookup k (field j v fs) = if str_eq j k then v else lookup k fs

unfoldable pub get_item : ℕ → Items → Value
get_item n nil = Value.undefined
get_item zero (cons v vs) = v
get_item (suc n) (cons v vs) = get_item n vs

unfoldable pub count_items : Items → ℕ
count_items nil = 0
count_items (cons v vs) = suc (count_items vs)

-- Decimal digits; a number below the fuel has no more digits than that.
digits : ℕ → ℕ → List ℕ → List ℕ
digits zero n out = out
digits (suc f) n out =
    let rest = digits f (n / 10) ((n % 10 + 48) ∷ out) in if ltb n 10 then (n + 48) ∷ out else rest

-- Any fuel above the number gives the same digits.
digits_fuel : (f g n : ℕ) (out : List ℕ) → n < f → n < g → digits f n out ≡ digits g n out
unfolding digits
digits_fuel zero g n out a b = absurd (omega arith)
digits_fuel (suc f) zero n out a b = absurd (omega arith)
digits_fuel (suc f) (suc g) n out a b = elim (Bool-cases (ltb n 10)) [
  | inl small ↦ rw small refl
  | inr large ↦
      let tens : 10 ≤ n = ground arith in
      rw large (digits_fuel f g (n / 10) ((n % 10 + 48) ∷ out) (omega arith) (omega arith))
]

show_nat : ℕ → List ℕ
unfolding digits
show_nat n = digits (suc n) n []

show_int : ℤ → List ℕ
unfolding show_nat
show_int (pos n) = show_nat n
show_int (negsuc n) = b'-' ∷ show_nat (n + 1)

hex_digit : ℕ → ℕ
hex_digit d = if ltb d 10 then d + 48 else d + 87

escape : ℕ → List ℕ
unfolding hex_digit
escape c =
    if c == b'"'
    then b'\\' ∷ b'"' ∷ []
    else if c == b'\\'
    then b'\\' ∷ b'\\' ∷ []
    else if c == 8
    then b'\\' ∷ b'b' ∷ []
    else if c == 9
    then b'\\' ∷ b't' ∷ []
    else if c == 10
    then b'\\' ∷ b'n' ∷ []
    else if c == 12
    then b'\\' ∷ b'f' ∷ []
    else if c == 13
    then b'\\' ∷ b'r' ∷ []
    else if ltb c 32
    then b'\\' ∷ b'u' ∷ b'0' ∷ b'0' ∷ hex_digit (c / 16) ∷ hex_digit (c % 16) ∷ []
    else c ∷ []

escape_all : List ℕ → List ℕ
unfolding escape
escape_all [] = []
escape_all (c ∷ cs) = escape c ++ escape_all cs

unfoldable pub quote : String → List ℕ
unfolding escape_all
quote s = b'"' ∷ (escape_all (codes s) ++ b'"' ∷ [])

is_undefined : Value → Bool
is_undefined undefined = true
is_undefined _ = false

-- A separator stands before every part but the first.
separator : Bool → List ℕ
separator true = []
separator false = b',' ∷ []

-- A field that is undefined is left out, an item that is undefined reads null.
unfoldable mutual
  unfolding show_int quote is_undefined separator

  pub stringify : Value → List ℕ
  stringify undefined = codes "null"
  stringify null = codes "null"
  stringify (boolean true) = codes "true"
  stringify (boolean false) = codes "false"
  stringify (number nan) = codes "null"
  stringify (number (int n)) = show_int n
  stringify (text s) = quote s
  stringify (array xs) = b'[' ∷ (stringify_items true xs ++ b']' ∷ [])
  stringify (object fs) = b'{' ∷ (stringify_fields true fs ++ b'}' ∷ [])

  stringify_items : Bool → Items → List ℕ
  stringify_items first nil = []
  stringify_items first (cons v vs) = separator first ++ (stringify v ++ stringify_items false vs)

  stringify_fields : Bool → Fields → List ℕ
  stringify_fields first end = []
  stringify_fields first (field k v fs) =
      let skipped = stringify_fields first fs in
      let kept =
        separator first ++ (quote k ++ b':' ∷ (stringify v ++ stringify_fields false fs)) in
      if is_undefined v then skipped else kept

-- `JSON.stringify(a) === JSON.stringify(b)`.
list_eq : List ℕ → List ℕ → Bool
list_eq [] [] = true
list_eq (x ∷ xs) (y ∷ ys) = x == y && list_eq xs ys
list_eq _ _ = false

unfoldable pub same_json : Value → Value → Bool
unfolding list_eq stringify
same_json a b = list_eq (stringify a) (stringify b)

list_eq_refl : (xs : List ℕ) → list_eq xs xs ≡ true
unfolding list_eq
list_eq_refl [] = refl
list_eq_refl (x ∷ xs) = ground (arith, list_eq_refl xs)

list_eq→eq : (xs ys : List ℕ) → list_eq xs ys ≡ true → xs ≡ ys
unfolding list_eq
list_eq→eq [] [] h = refl
list_eq→eq [] (y ∷ ys) h = cc
list_eq→eq (x ∷ xs) [] h = cc
list_eq→eq (x ∷ xs) (y ∷ ys) h = ground (arith, list_eq→eq xs ys)

pub same_json_refl : (v : Value) → same_json v v ≡ true
unfolding same_json
same_json_refl v = list_eq_refl (stringify v)

-- The test holds for values with one text.
pub same_json_iff : (a b : Value) → (same_json a b ≡ true) ↔ (stringify a ≡ stringify b)
unfolding same_json
same_json_iff a b = (list_eq→eq (stringify a) (stringify b), λ e. rw e (list_eq_refl (stringify b)))

stringify_example :
    stringify (
      object (
        field "a"
          (array (cons (number (int (pos 120))) (cons undefined nil)))
          (field "b" undefined (field "c" (text "x\"y") end))))
    ≡ codes "{\"a\":[120,null],\"c\":\"x\\\"y\"}"
unfolding stringify
stringify_example = refl
