-- ===== src/Reflect/Frame.antt =====
-- What the loops of `Reflect.Patch` and `Reflect.Decode` leave alone: a projection that no matching
-- field writes.
use text.Mathlib.TextLemmas.{append_cancel_right}
use mathlib.Core.Bool.{false≢true}
use student_system_go.Common.{
  ◌≡◌, ◌≢◌, refl, ◌∙◌, sym, ◌⊎◌, inl, inr, String, Bool, true, false, Option, List, [], ◌∷◌, All,
  arith, Bool-cases, eq_iff,
}
use student_system_go.Common.Int.{ℤ}
use student_system_go.Common.Text.{same, ◌<>◌}
use student_system_go.Reflect.{Slot, int_slot, string_slot, bool_slot, null_string_slot, Field}
use student_system_go.Reflect.Json.{Json, Update}
use student_system_go.Reflect.Patch.{
  Patched, patched, mismatch, panicked, convert, is_named, then_patch, or_panic, set_first,
  set_each, patch_checked, patch_unchecked,
}

pub is_named-false :
    (name k : String) → name ≢ k → same (name <> ",omitempty") (k <> ",omitempty") ≡ false
is_named-false name k h = elim (Bool-cases (same (name <> ",omitempty") (k <> ",omitempty"))) [
  | inl equal ↦ absurd (h (append_cancel_right name k ",omitempty" ((eq_iff _ _).0 equal)))
  | inr other ↦ other
]

then_patch-patched :
    {R : Type 0} (x : Patched R) (k : R → Patched R) {r' : R}
    → then_patch x k ≡ patched r'
    → (r : R) × (x ≡ patched r) × (k r ≡ patched r')
then_patch-patched (patched r) k h = (r, refl, h)
then_patch-patched mismatch k h = cc
then_patch-patched panicked k h = cc

or_panic-patched : {R : Type 0} (x : Patched R) {r : R} → or_panic x ≡ patched r → x ≡ patched r
or_panic-patched (patched r) h = h
or_panic-patched mismatch h = cc
or_panic-patched panicked h = cc

module _ {R A : Type 0} (get : R → A) where
  abbrev pub Leaves : Slot R → Type 0
  Leaves (int_slot read set) = (v : ℤ) (r : R) → get (set v r) ≡ get r
  Leaves (string_slot read set) = (v : String) (r : R) → get (set v r) ≡ get r
  Leaves (bool_slot read set) = (v : Bool) (r : R) → get (set v r) ≡ get r
  Leaves (null_string_slot read set) = (v : Option String) (r : R) → get (set v r) ≡ get r

  convert-Leaves :
      (slot : Slot R) (v : Json) (r r' : R)
      → Leaves slot
      → convert slot v r ≡ patched r'
      → get r' ≡ get r
  convert-Leaves (int_slot read set) (Json.num n) r r' h e = ground (arith, h n r)
  convert-Leaves (string_slot read set) (Json.str s) r r' h e = ground (arith, h s r)
  convert-Leaves (bool_slot read set) (Json.bool b) r r' h e = ground (arith, h b r)
  convert-Leaves (null_string_slot read set) Json.null r r' h e = cc
  convert-Leaves _ _ r r' h e = cc

  -- Each field is not the one that the key names, or leaves the projection alone.
  abbrev pub Frames : String → List (Field R) → Type 0
  Frames k fields = All (λ f. (is_named f k ≡ false) ⊎ Leaves f.slot) fields

  named-Leaves :
      (f : Field R) (k : String)
      → (is_named f k ≡ false) ⊎ Leaves f.slot
      → is_named f k ≡ true
      → Leaves f.slot
  named-Leaves f k (inl other) named = absurd (false≢true (sym other ∙ named))
  named-Leaves f k (inr leaves) named = leaves

  not_skipped :
      (k : String) (fields : List (Field R))
      → (k ≡ "id") ⊎ Frames k fields
      → same k "id" ≡ false
      → Frames k fields
  not_skipped k fields (inl is_id) other = absurd (false≢true (sym other ∙ (eq_iff k "id").1 is_id))
  not_skipped k fields (inr frames) other = frames

  set_first-Leaves :
      (fields : List (Field R)) (k : String) (v : Json) (r r' : R)
      → Frames k fields
      → set_first fields k v r ≡ patched r'
      → get r' ≡ get r
  unfolding set_first
  set_first-Leaves [] k v r r' h e = ground arith
  set_first-Leaves (f ∷ fs) k v r r' (h, hs) e = elim (Bool-cases (is_named f k)) [
    | inl named ↦ convert-Leaves f.slot v r r' (named-Leaves f k h named) (rw named at e)
    | inr other ↦ set_first-Leaves fs k v r r' hs (rw other at e)
  ]

  set_each-Leaves :
      (fields : List (Field R)) (k : String) (v : Json) (r r' : R)
      → Frames k fields
      → set_each fields k v r ≡ patched r'
      → get r' ≡ get r
  unfolding set_each
  set_each-Leaves [] k v r r' h e = ground arith
  set_each-Leaves (f ∷ fs) k v r r' (h, hs) e = elim (Bool-cases (is_named f k)) [
    | inl named ↦
        let (m, first, rest) =
          then_patch-patched (or_panic (convert f.slot v r)) (set_each fs k v) (rw named at e) in
        set_each-Leaves fs k v m r' hs rest
        ∙ convert-Leaves f.slot v r m (named-Leaves f k h named) (or_panic-patched _ first)
    | inr other ↦ set_each-Leaves fs k v r r' hs (rw other at e)
  ]

  -- A patch that skips "id" leaves a projection that no other key writes.
  pub patch_checked-Leaves :
      (fields : List (Field R)) (u : Update) (r r' : R)
      → All (λ m. (m.0 ≡ "id") ⊎ Frames m.0 fields) u
      → patch_checked fields u r ≡ patched r'
      → get r' ≡ get r
  unfolding patch_checked
  patch_checked-Leaves fields [] r r' h e = ground arith
  patch_checked-Leaves fields ((k, v) ∷ u) r r' (h, hs) e = elim (Bool-cases (same k "id")) [
    | inl skipped ↦ patch_checked-Leaves fields u r r' hs (rw skipped at e)
    | inr other ↦
        let (m, first, rest) =
          then_patch-patched (set_first fields k v r) (patch_checked fields u) (rw other at e) in
        patch_checked-Leaves fields u m r' hs rest
        ∙ set_first-Leaves fields k v r m (not_skipped k fields h other) first
  ]

  -- A patch that does not skip "id" leaves a projection that none of its keys writes.
  pub patch_unchecked-Leaves :
      (fields : List (Field R)) (u : Update) (r r' : R)
      → All (λ m. Frames m.0 fields) u
      → patch_unchecked fields u r ≡ patched r'
      → get r' ≡ get r
  unfolding patch_unchecked
  patch_unchecked-Leaves fields [] r r' h e = ground arith
  patch_unchecked-Leaves fields ((k, v) ∷ u) r r' (h, hs) e =
      let (m, first, rest) =
        then_patch-patched (set_each fields k v r) (patch_unchecked fields u) e in
      patch_unchecked-Leaves fields u m r' hs rest ∙ set_each-Leaves fields k v r m h first
