-- ===== src/Sanitize/Safe.antt =====
-- What a body holds after `clean`.
use student_system_go.Common.{◌≡◌, refl, ◌⊎◌, inl, inr, String, Bool, none, some}
use student_system_go.Common.Int.{ℤ}
use student_system_go.Reflect.Json.{
  Json, Items, Members, null, bool, num, str, arr, obj, nil, cons, end, member,
}
use student_system_go.Sanitize.{sanitize_value, sanitize_items, sanitize_members, clean}

module _ (Safe : String → Type 0) where
  unfoldable mutual
    -- Each string of the value is safe, names of members apart.
    pub AllSafe : Json → Type 0
    AllSafe null = Unit
    AllSafe (bool b) = Unit
    AllSafe (num n) = Unit
    AllSafe (str s) = Safe s
    AllSafe (arr vs) = ItemsSafe vs
    AllSafe (obj ms) = MembersSafe ms

    pub ItemsSafe : Items → Type 0
    ItemsSafe nil = Unit
    ItemsSafe (cons v vs) = AllSafe v × ItemsSafe vs

    pub MembersSafe : Members → Type 0
    MembersSafe end = Unit
    MembersSafe (member k v ms) = AllSafe v × MembersSafe ms

-- The bodies that the middleware refuses.
pub data Scalar : Json → Type 0 where
  is_null : Scalar null
  is_bool : (b : Bool) → Scalar (bool b)
  is_num : (n : ℤ) → Scalar (num n)

module _ (sanitize : String → String) where
  module _ (Safe : String → Type 0) (safe : (s : String) → Safe (sanitize s)) where
    mutual
      unfolding sanitize_value AllSafe

      value-AllSafe : (v : Json) → AllSafe Safe (sanitize_value sanitize v)
      value-AllSafe null = tt
      value-AllSafe (bool b) = tt
      value-AllSafe (num n) = tt
      value-AllSafe (str s) = safe s
      value-AllSafe (arr vs) = items-ItemsSafe vs
      value-AllSafe (obj ms) = members-MembersSafe ms

      items-ItemsSafe : (vs : Items) → ItemsSafe Safe (sanitize_items sanitize vs)
      items-ItemsSafe nil = tt
      items-ItemsSafe (cons v vs) = (value-AllSafe v, items-ItemsSafe vs)

      members-MembersSafe : (ms : Members) → MembersSafe Safe (sanitize_members sanitize ms)
      members-MembersSafe end = tt
      members-MembersSafe (member k v ms) = (value-AllSafe v, members-MembersSafe ms)

    -- Every string of a body that clean lets through, however deep in it and names of members apart, is
    -- safe, for any notion of safety that the sanitizer's results have. It refuses a body exactly if it
    -- is null, a Boolean or a number.
    pub clean-AllSafe :
        (v : Json)
        → (Scalar v × (clean sanitize v ≡ none))
          ⊎ ((c : Json) × ((clean sanitize v ≡ some c) × AllSafe Safe c))
    unfolding clean AllSafe
    clean-AllSafe null = inl (is_null, refl)
    clean-AllSafe (bool b) = inl (is_bool b, refl)
    clean-AllSafe (num n) = inl (is_num n, refl)
    clean-AllSafe (str s) = inr (str (sanitize s), (refl, safe s))
    clean-AllSafe (arr vs) = inr (arr (sanitize_items sanitize vs), (refl, items-ItemsSafe vs))
    clean-AllSafe (obj ms) =
        inr (obj (sanitize_members sanitize ms), (refl, members-MembersSafe ms))
