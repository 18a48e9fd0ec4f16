-- ===== src/Reflect/Patch.antt =====
-- The reflection loops that copy the members of a decoded JSON object into a struct: in
-- `PatchStudents` (and its copies) with a convertibility test, in `PatchOneStudent` without one.
-- Both in internal/repository/sqlconnect/*_crud.go.
use student_system_go.Common.{String, Bool, List, [], ◌∷◌, if◌then◌else◌}
use student_system_go.Common.Text.{same, ◌<>◌}
use student_system_go.Reflect.{Slot, int_slot, string_slot, bool_slot, Field}
use student_system_go.Reflect.Json.{Json, Update}

-- Where a patch loop ends: with the patched struct, at a value whose type cannot be converted, or
-- in a panic of `reflect`.
pub data Patched (R : Type 0) : Type 0 where
  patched : R → Patched R
  mismatch : Patched R
  panicked : Patched R

module _ {R : Type 0} where
  -- `reflect.ValueOf(v)` against the type of the field: a float64 converts to an int (the numbers here are
  -- integral ones that it holds exactly), a string to a string, a bool to a bool; `reflect.ValueOf(nil)` has no type, and asking for it panics.
  abbrev pub convert : Slot R → Json → R → Patched R
  convert slot Json.null r = panicked
  convert (int_slot get set) (Json.num n) r = patched (set n r)
  convert (string_slot get set) (Json.str s) r = patched (set s r)
  convert (bool_slot get set) (Json.bool b) r = patched (set b r)
  convert _ _ r = mismatch

  -- `field.Tag.Get("json") == k+",omitempty"`
  abbrev pub is_named : Field R → String → Bool
  is_named f k = same f.json (k <> ",omitempty")

  -- The inner loop of `PatchStudents`: the first field of that name, then `break`.
  unfoldable pub set_first : List (Field R) → String → Json → R → Patched R
  set_first [] k v r = patched r
  set_first (f ∷ fs) k v r = if is_named f k then convert f.slot v r else set_first fs k v r

  abbrev pub then_patch : Patched R → (R → Patched R) → Patched R
  then_patch (patched r) k = k r
  then_patch mismatch k = mismatch
  then_patch panicked k = panicked

  -- The outer loop of `PatchStudents`, which skips the key "id".
  unfoldable pub patch_checked : List (Field R) → Update → R → Patched R
  unfolding set_first
  patch_checked fields [] r = patched r
  patch_checked fields ((k, v) ∷ u) r =
      let skipped = patch_checked fields u r in
      let applied = then_patch (set_first fields k v r) (patch_checked fields u) in
      if same k "id" then skipped else applied

  -- `Convert` panics where the types do not convert.
  abbrev pub or_panic : Patched R → Patched R
  or_panic mismatch = panicked
  or_panic p = p

  -- The inner loop of `PatchOneStudent`: every field of that name.
  unfoldable pub set_each : List (Field R) → String → Json → R → Patched R
  set_each [] k v r = patched r
  set_each (f ∷ fs) k v r =
      let passed = set_each fs k v r in
      let applied = then_patch (or_panic (convert f.slot v r)) (set_each fs k v) in
      if is_named f k then applied else passed

  -- The outer loop of `PatchOneStudent`, which does not skip "id".
  unfoldable pub patch_unchecked : List (Field R) → Update → R → Patched R
  unfolding set_each
  patch_unchecked fields [] r = patched r
  patch_unchecked fields ((k, v) ∷ u) r =
      then_patch (set_each fields k v r) (patch_unchecked fields u)
