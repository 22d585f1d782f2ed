-- ===== src/Storage/Float.antt =====
-- What encoding/json makes of a number that it decodes into an `any`: a float64. Here a float64 that is
-- whole is the integer that it stands for. An integer that is not a float64 is rounded to the nearest
-- one, and between two equally near to that with an even significand.
use octo_docs_html_fork.Prelude.{
  ℕ, zero, suc, ◌+◌, ◌*◌, ◌/◌, ◌%◌, ◌^◌, String, Bool, true, ◌&&◌, ◌||◌, ◌≡◌, refl, ap, Option,
  none, some, [], ◌∷◌, arith, ltb, eqb, is_empty, if◌then◌else◌,
}
use octo_docs_html_fork.Prelude.Dict.{Dict, get}
use octo_docs_html_fork.Prelude.Int.{ℤ, pos, negsuc}
use octo_docs_html_fork.Storage.Value.{Value, Values, Fields, field_at}

-- to a multiple of the unit
unfoldable pub round_to : ℕ → ℕ → ℕ
round_to unit n =
    let r = 2 * (n % unit) in
    let q = n / unit in
    if ltb r unit || (eqb r unit && eqb (q % 2) 0) then q * unit else (q + 1) * unit

-- A significand has 53 bits. The fuel is the number of doublings of the unit.
unfoldable pub round_from : ℕ → ℕ → ℕ → ℕ
unfolding round_to
round_from zero unit n = round_to unit n
round_from (suc fuel) unit n =
    let rest = round_from fuel (2 * unit) n in
    if ltb n (2 ^ 53 * unit) then round_to unit n else rest

-- An int is below 2 ^ 64.
unfoldable pub float_nat : ℕ → ℕ
unfolding round_from
float_nat n = round_from 11 1 n

unfoldable pub negate : ℕ → ℤ
negate zero = pos 0
negate (suc n) = negsuc n

unfoldable pub as_float : ℤ → ℤ
unfolding float_nat negate
as_float (pos n) = pos (float_nat n)
as_float (negsuc n) = negate (float_nat (suc n))

-- a value that is decoded into an `any`
unfoldable mutual
  unfolding as_float

  pub decode_any : Value → Value
  decode_any Value.null = Value.null
  decode_any (Value.bool b) = Value.bool b
  decode_any (Value.number z) = Value.number (as_float z)
  decode_any (Value.fraction t) = Value.fraction t
  decode_any (Value.text t) = Value.text t
  decode_any (Value.array vs) = Value.array (decode_items vs)
  decode_any (Value.object fs) = Value.object (decode_fields fs)

  pub decode_items : Values → Values
  decode_items Values.no_values = Values.no_values
  decode_items (Values.value v vs) = Values.value (decode_any v) (decode_items vs)

  pub decode_fields : Fields → Fields
  decode_fields Fields.no_fields = Fields.no_fields
  decode_fields (Fields.field k v fs) = Fields.field k (decode_any v) (decode_fields fs)

unfoldable pub decode_dict : Dict Value → Dict Value
unfolding decode_any
decode_dict [] = []
decode_dict ((k, v) ∷ d) = (k, decode_any v) ∷ decode_dict d

-- a value that is looked up, decoded
abbrev pub decoded : Option Value → Option Value
decoded none = none
decoded (some v) = some (decode_any v)

pub get-decode_dict : (d : Dict Value) (k : String) → get (decode_dict d) k ≡ decoded (get d k)
unfolding get decode_dict
get-decode_dict [] k = refl
get-decode_dict ((j, v) ∷ d) k = ground (arith, get-decode_dict d k)

pub field_at-decode_fields :
    (fs : Fields) (k : String) → field_at (decode_fields fs) k ≡ decoded (field_at fs k)
unfolding field_at decode_fields
field_at-decode_fields Fields.no_fields k = refl
field_at-decode_fields (Fields.field j v fs) k = ground (arith, field_at-decode_fields fs k)

pub is_empty-decode_dict : (d : Dict Value) → is_empty (decode_dict d) ≡ is_empty d
unfolding decode_dict
is_empty-decode_dict [] = refl
is_empty-decode_dict ((k, v) ∷ d) = refl

-- A number that a float64 carries as it is: below 2 ^ 53 in size.
abbrev pub is_small : ℤ → Bool
is_small (pos n) = ltb n (2 ^ 53)
is_small (negsuc n) = ltb (suc n) (2 ^ 53)

-- Every number in a value is small.
unfoldable mutual
  pub is_exact : Value → Bool
  is_exact (Value.number z) = is_small z
  is_exact (Value.array vs) = exact_items vs
  is_exact (Value.object fs) = exact_fields fs
  is_exact Value.null = true
  is_exact (Value.bool b) = true
  is_exact (Value.fraction t) = true
  is_exact (Value.text t) = true

  pub exact_items : Values → Bool
  exact_items Values.no_values = true
  exact_items (Values.value v vs) = is_exact v && exact_items vs

  pub exact_fields : Fields → Bool
  exact_fields Fields.no_fields = true
  exact_fields (Fields.field k v fs) = is_exact v && exact_fields fs

unfoldable pub exact_dict : Dict Value → Bool
unfolding is_exact
exact_dict [] = true
exact_dict ((k, v) ∷ d) = is_exact v && exact_dict d

float_nat-small : (n : ℕ) → ltb n (2 ^ 53) ≡ true → float_nat n ≡ n
unfolding float_nat round_from round_to
float_nat-small n h = ground (arith, h)

as_float-small : (z : ℤ) → is_small z ≡ true → as_float z ≡ z
unfolding as_float negate
as_float-small (pos n) h = ap pos (float_nat-small n h)
as_float-small (negsuc n) h = ap negate (float_nat-small (suc n) h)

mutual
  unfolding decode_any is_exact

  decode_any-exact : (v : Value) → is_exact v ≡ true → decode_any v ≡ v
  decode_any-exact (Value.number z) h = ap Value.number (as_float-small z h)
  decode_any-exact (Value.array vs) h = ap Value.array (decode_items-exact vs h)
  decode_any-exact (Value.object fs) h = ap Value.object (decode_fields-exact fs h)
  decode_any-exact Value.null h = refl
  decode_any-exact (Value.bool b) h = refl
  decode_any-exact (Value.fraction t) h = refl
  decode_any-exact (Value.text t) h = refl

  decode_items-exact : (vs : Values) → exact_items vs ≡ true → decode_items vs ≡ vs
  decode_items-exact Values.no_values h = refl
  decode_items-exact (Values.value v vs) h =
      let head = decode_any-exact v (ground (arith, h)) in
      let tail = decode_items-exact vs (ground (arith, h)) in λ i. Values.value (head i) (tail i)

  decode_fields-exact : (fs : Fields) → exact_fields fs ≡ true → decode_fields fs ≡ fs
  decode_fields-exact Fields.no_fields h = refl
  decode_fields-exact (Fields.field k v fs) h =
      let head = decode_any-exact v (ground (arith, h)) in
      let tail = decode_fields-exact fs (ground (arith, h)) in λ i. Fields.field k (head i) (tail i)

pub decode_dict-exact : (d : Dict Value) → exact_dict d ≡ true → decode_dict d ≡ d
unfolding decode_dict exact_dict
decode_dict-exact [] h = refl
decode_dict-exact ((k, v) ∷ d) h =
    let head = decode_any-exact v (ground (arith, h)) in
    let tail = decode_dict-exact d (ground (arith, h)) in λ i. (k, head i) ∷ tail i
