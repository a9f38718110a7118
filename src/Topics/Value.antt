-- ===== src/Topics/Value.antt =====
-- `interface{}` values and `equal` of broker/persistence/topics/memtopics.go. A value has the
-- kinds that `equal` names, but floats; `pointer` is a `*subscription`, by its address.
use thoth.Base.{
  ℕ, ◌≡◌, ◌↔◌, refl, subst, Bool, true, false, not, arith, Bytes, Bytes-discrete, ℕ_discrete, ite,
  ◌==◌, if◌then◌else◌,
}

pub data IntType : Type 0 where
  int int8 int16 int32 int64 uint uint8 uint16 uint32 uint64 uintptr : IntType

IntType-discrete : Discrete IntType
IntType-discrete = hlevel

pub data Value : Type 0 where
  nil : Value
  func : ℕ → Value
  text : Bytes → Value
  number : IntType → ℕ → Value
  pointer : ℕ → Value

pub Value-discrete : Discrete Value
unfolding ℕ_discrete Bytes-discrete IntType-discrete
Value-discrete = hlevel (ℕ_discrete, Bytes-discrete, IntType-discrete)

-- `reflect.TypeOf(k1) == reflect.TypeOf(k2)`. Two functions may differ in type; `equal` is false
-- for them in both cases.
same_type : Value → Value → Bool
unfolding IntType-discrete
same_type nil nil = true
same_type (func a) (func b) = true
same_type (text a) (text b) = true
same_type (number t a) (number u b) = ite (IntType-discrete t u) true false
same_type (pointer a) (pointer b) = true
same_type _ _ = false

-- `reflect.ValueOf(k).Kind() == reflect.Func`
abbrev pub is_func : Value → Bool
is_func (func a) = true
is_func _ = false

-- The type switch at the end: two values of one type.
switch_equal : Value → Value → Bool
unfolding Bytes-discrete
switch_equal (text a) (text b) = ite (Bytes-discrete a b) true false
switch_equal (number t a) (number u b) = a == b
switch_equal _ _ = false

-- The address of one local variable is never that of another.
unfoldable pub equal : Value → Value → Bool
unfolding same_type switch_equal Value-discrete
equal k1 k2 =
    if not (same_type k1 k2)
    then false
    else if is_func k1
    then false
    else ite (Value-discrete k1 k2) true (switch_equal k1 k2)

switch_equal-eq : (a b : Value) → same_type a b ≡ true → switch_equal a b ≡ true → a ≡ b
unfolding same_type switch_equal
switch_equal-eq nil b s h = cc
switch_equal-eq (func x) b s h = cc
switch_equal-eq (text x) (text y) s h = ground arith
switch_equal-eq (text x) b s h = cc
switch_equal-eq (number t x) (number u y) s h = ground arith
switch_equal-eq (number t x) b s h = cc
switch_equal-eq (pointer x) b s h = cc

same_type_self : (a : Value) → same_type a a ≡ true
unfolding same_type
same_type_self nil = refl
same_type_self (func x) = refl
same_type_self (text x) = refl
same_type_self (number t x) = ground arith
same_type_self (pointer x) = refl

equal-eq : (a b : Value) → equal a b ≡ true → a ≡ b
equal-eq a b h = elim (Value-discrete a b) [
  | yes e ↦ e
  | no n ↦ switch_equal-eq a b (unfold equal in ground arith) (unfold equal in ground arith)
]

pub equal_self : (a : Value) → is_func a ≡ false → equal a a ≡ true
unfolding equal
equal_self a h = ground (arith, same_type_self a)

-- `equal` is identity, but on functions, which are not even equal to themselves.
pub equal_iff : (a b : Value) → (equal a b ≡ true) ↔ ((a ≡ b) × (is_func a ≡ false))
unfolding equal
equal_iff a b =
    (λ h. (equal-eq a b h, ground arith), λ h. subst (λ v. equal a v ≡ true) h.0 (equal_self a h.1))
