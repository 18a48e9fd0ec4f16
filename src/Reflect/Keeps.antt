-- ===== src/Reflect/Keeps.antt =====
-- What decoding JSON into a struct leaves alone: a property of the struct that no field with a json name
-- can change holds afterwards.
use mathlib.Core.Path.{subst}
use student_system_go.Common.{
  ◌≡◌, refl, ◌⊎◌, inl, inr, String, Bool, true, false, not, ◌&&◌, Option, none, some, List, [], ◌∷◌,
  All, if◌then◌else◌, Option-cases,
}
use student_system_go.Common.Text.{same}
use student_system_go.Common.Int.{ℤ}
use student_system_go.Reflect.{Slot, int_slot, string_slot, bool_slot, null_string_slot, Field}
use student_system_go.Reflect.Json.{Json, Items, nil, cons, Update, members, lookup}
use student_system_go.Reflect.Decode.{
  json_name, field_where, field_for, or_else, decode_slot, valid_string, equal_fold, and_then,
  decode_into, decode_members, decode_struct, decode_items, decode_structs,
}

pub some-inj : {A : Type 0} {a b : A} → some a ≡ some b → a ≡ b
some-inj h = cc

module _ {R : Type 0} (P : R → Type 0) where
  -- Decoding into the field keeps the property.
  abbrev pub KeptBy : Field R → Type 0
  KeptBy f = (v : Json) (r s : R) → decode_slot f.slot v r ≡ some s → P r → P s

  abbrev pub IsKept : Field R → Type 0
  IsKept f = (same f.json "-" ≡ true) ⊎ KeptBy f

  -- It is enough that the setter of the field does.
  abbrev pub SetterKeeps : Slot R → Type 0
  SetterKeeps (int_slot get set) = (n : ℤ) (r : R) → P r → P (set n r)
  SetterKeeps (string_slot get set) = (t : String) (r : R) → P r → P (set t r)
  SetterKeeps (bool_slot get set) = (b : Bool) (r : R) → P r → P (set b r)
  SetterKeeps (null_string_slot get set) = (o : Option String) (r : R) → P r → P (set o r)

  pub slot-KeptBy :
      (slot : Slot R)
      → SetterKeeps slot
      → (v : Json) (r s : R) → decode_slot slot v r ≡ some s
      → P r
      → P s
  unfolding decode_slot
  slot-KeptBy (int_slot get set) k Json.null r s h p = subst P (some-inj h) p
  slot-KeptBy (int_slot get set) k (Json.bool b) r s h p = cc
  slot-KeptBy (int_slot get set) k (Json.num n) r s h p = subst P (some-inj h) (k n r p)
  slot-KeptBy (int_slot get set) k (Json.str t) r s h p = cc
  slot-KeptBy (int_slot get set) k (Json.arr vs) r s h p = cc
  slot-KeptBy (int_slot get set) k (Json.obj ms) r s h p = cc
  slot-KeptBy (string_slot get set) k Json.null r s h p = subst P (some-inj h) p
  slot-KeptBy (string_slot get set) k (Json.bool b) r s h p = cc
  slot-KeptBy (string_slot get set) k (Json.num n) r s h p = cc
  slot-KeptBy (string_slot get set) k (Json.str t) r s h p = subst P (some-inj h) (k t r p)
  slot-KeptBy (string_slot get set) k (Json.arr vs) r s h p = cc
  slot-KeptBy (string_slot get set) k (Json.obj ms) r s h p = cc
  slot-KeptBy (bool_slot get set) k Json.null r s h p = subst P (some-inj h) p
  slot-KeptBy (bool_slot get set) k (Json.bool b) r s h p = subst P (some-inj h) (k b r p)
  slot-KeptBy (bool_slot get set) k (Json.num n) r s h p = cc
  slot-KeptBy (bool_slot get set) k (Json.str t) r s h p = cc
  slot-KeptBy (bool_slot get set) k (Json.arr vs) r s h p = cc
  slot-KeptBy (bool_slot get set) k (Json.obj ms) r s h p = cc
  slot-KeptBy (null_string_slot get set) k Json.null r s h p = subst P (some-inj h) p
  slot-KeptBy (null_string_slot get set) k (Json.bool b) r s h p = cc
  slot-KeptBy (null_string_slot get set) k (Json.num n) r s h p = cc
  slot-KeptBy (null_string_slot get set) k (Json.str t) r s h p = cc
  slot-KeptBy (null_string_slot get set) k (Json.arr vs) r s h p = cc
  slot-KeptBy (null_string_slot get set) k (Json.obj ms) r s h p =
      elim (Option-cases
        (valid_string (lookup "String" (members ms)) (lookup "Valid" (members ms)))) [
          | inl fails ↦ cc (rw (fails, decode_slot) at h)
          | inr (o, valid) ↦ subst P (some-inj (rw (valid, decode_slot) at h)) (k o r p)
        ]

  abbrev WhenSome : Option (Field R) → Type 0
  WhenSome none = Unit
  WhenSome (some f) = KeptBy f

  field_where-WhenSome :
      (test : String → Bool) (fields : List (Field R))
      → All IsKept fields
      → WhenSome (field_where test fields)
  unfolding field_where
  field_where-WhenSome test [] kept = tt
  field_where-WhenSome test (f ∷ fs) (kept, rest) =
      go (same f.json "-") (test (json_name f)) kept (field_where-WhenSome test fs rest)
    where
      go :
          (hidden here : Bool)
          → (hidden ≡ true) ⊎ KeptBy f
          → WhenSome (field_where test fs)
          → WhenSome (if not hidden && here then some f else field_where test fs)
      go true here k later = later
      go false false k later = later
      go false true (inl hidden_name) later = cc
      go false true (inr k) later = k

  or_else-WhenSome : (a b : Option (Field R)) → WhenSome a → WhenSome b → WhenSome (or_else a b)
  or_else-WhenSome none b h k = k
  or_else-WhenSome (some f) b h k = h

  field_for-WhenSome :
      (fields : List (Field R)) (key : String) → All IsKept fields → WhenSome (field_for fields key)
  unfolding field_for
  field_for-WhenSome fields key kept =
      let exactly : String → Bool = λ name. same name key in
      let folded : String → Bool = λ name. equal_fold name key in
      or_else-WhenSome (field_where exactly fields) (field_where folded fields)
        (field_where-WhenSome exactly fields kept) (field_where-WhenSome folded fields kept)

  decode_members-keeps :
      (fields : List (Field R)) (u : Update) (r s : R)
      → All IsKept fields
      → decode_members fields u r ≡ some s
      → P r
      → P s
  unfolding decode_members
  decode_members-keeps fields [] r s kept h p = subst P (some-inj h) p
  decode_members-keeps fields ((k, v) ∷ u) r s kept h p =
      go (field_for fields k) (field_for-WhenSome fields k kept)
        (λ r' s' e p'. decode_members-keeps fields u r' s kept e p') h
    where
      Rest : Type 0
      Rest = (r' s' : R) → decode_members fields u r' ≡ some s → P r' → P s

      then_rest :
          (o : Option R)
          → ((r' : R) → o ≡ some r' → P r')
          → Rest
          → and_then o (decode_members fields u) ≡ some s
          → P s
      then_rest none holds rest h = cc
      then_rest (some r') holds rest h = rest r' r' h (holds r' refl)

      go :
          (o : Option (Field R))
          → WhenSome o
          → Rest
          → and_then (decode_into o v r) (decode_members fields u) ≡ some s
          → P s
      go none k rest h = rest r r h p
      go (some f) k rest h = then_rest (decode_slot f.slot v r) (λ r' e. k v r r' e p) rest h

  decode_struct-keeps :
      (fields : List (Field R)) (zero_value : R) (j : Json) (s : R)
      → All IsKept fields
      → decode_struct fields zero_value j ≡ some s
      → P zero_value
      → P s
  unfolding decode_struct
  decode_struct-keeps fields z Json.null s kept h p = subst P (some-inj h) p
  decode_struct-keeps fields z (Json.obj ms) s kept h p =
      decode_members-keeps fields (members ms) z s kept h p
  decode_struct-keeps fields z (Json.bool b) s kept h p = cc
  decode_struct-keeps fields z (Json.num n) s kept h p = cc
  decode_struct-keeps fields z (Json.str t) s kept h p = cc
  decode_struct-keeps fields z (Json.arr vs) s kept h p = cc

  decode_items-keeps :
      (fields : List (Field R)) (zero_value : R) (vs : Items) (rs : List R)
      → All IsKept fields
      → decode_items fields zero_value vs ≡ some rs
      → P zero_value
      → All P rs
  unfolding decode_items
  decode_items-keeps fields z nil rs kept h p = subst (All P) (some-inj h) tt
  decode_items-keeps fields z (cons v vs) rs kept h p =
      elim (Option-cases (decode_struct fields z v)) [
        | inl fails ↦ cc (rw (fails, decode_items) at h)
        | inr (r, first) ↦ elim (Option-cases (decode_items fields z vs)) [
          | inl fails ↦ cc (rw (first, fails, decode_items) at h)
          | inr (more, later) ↦ subst (All P) (some-inj (rw (first, later, decode_items) at h)) (
            decode_struct-keeps fields z v r kept first p,
            decode_items-keeps fields z vs more kept later p,
          )
        ]
      ]

  -- Every struct of a decoded list has the property, if the zero struct has it.
  pub decode_structs-keeps :
      (fields : List (Field R)) (zero_value : R) (j : Json) (rs : List R)
      → All IsKept fields
      → decode_structs fields zero_value j ≡ some rs
      → P zero_value
      → All P rs
  unfolding decode_structs
  decode_structs-keeps fields z Json.null rs kept h p = subst (All P) (some-inj h) tt
  decode_structs-keeps fields z (Json.arr vs) rs kept h p =
      decode_items-keeps fields z vs rs kept h p
  decode_structs-keeps fields z (Json.bool b) rs kept h p = cc
  decode_structs-keeps fields z (Json.num n) rs kept h p = cc
  decode_structs-keeps fields z (Json.str t) rs kept h p = cc
  decode_structs-keeps fields z (Json.obj ms) rs kept h p = cc
