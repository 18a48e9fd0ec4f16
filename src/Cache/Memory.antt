-- ===== src/Cache/Memory.antt =====
-- A Redis with room for one key. It meets the laws, so they can hold; the examples run on it.
use student_system_go.Common.{
  ◌≡◌, sym, inl, inr, String, Bool, false, ◌||◌, Option, none, some, List, [], ◌∷◌, if◌then◌else◌,
  Bool-cases, eq_iff,
}
use mathlib.Core.Path.{subst}
use student_system_go.Common.Text.{same}
use student_system_go.Cache.{Got, hit, absent, Redis}
use student_system_go.Cache.Coherent.{IsRedis, IsIn}

abbrev Slot : Type 0
Slot = Option (String × String)

abbrev look : String → Slot → Got
look k none = absent
look k (some (j, v)) = if same k j then hit v else absent

abbrev is_among : String → List String → Bool
is_among k [] = false
is_among k (j ∷ js) = same k j || is_among k js

abbrev forget : List String → Slot → Slot
forget keys none = none
forget keys (some (j, v)) = if is_among j keys then none else some (j, v)

abbrev keys_of : Slot → List String
keys_of none = []
keys_of (some (j, v)) = j ∷ []

abbrev pub one_slot : Redis
one_slot = record {
  S = Slot;
  get = look;
  set = λ k v s. some (k, v);
  scan = λ pattern s. some (keys_of s);
  del = forget;
}

pub look-put :
    (k key value text : String) → look k (some (key, value)) ≡ hit text → (k ≡ key) × (text ≡ value)
look-put k key value text h = elim (Bool-cases (same k key)) [
  | inl here ↦ ((eq_iff k key).0 here, cc (rw here at h))
  | inr other ↦ cc (rw other at h)
]

pub forget-look :
    (keys : List String) (k text : String) (s : Slot)
    → look k (forget keys s) ≡ hit text
    → look k s ≡ hit text
forget-look keys k text none h = h
forget-look keys k text (some (j, v)) h = elim (Bool-cases (is_among j keys)) [
  | inl gone ↦ cc (rw gone at h)
  | inr kept ↦ rw kept at h
]

pub keys_of_complete :
    (k text : String) (s : Slot) (keys : List String)
    → some (keys_of s) ≡ some keys
    → look k s ≡ hit text
    → IsIn k keys
keys_of_complete k text none keys h held = cc
keys_of_complete k text (some (j, v)) keys h held =
    let only : keys ≡ j ∷ [] = cc in subst (IsIn k) (sym only) (inl ((look-put k j v text held).0))

unfoldable pub one_slot-IsRedis : IsRedis one_slot
one_slot-IsRedis = record {
  set_get = λ key value k text s h. inl (look-put k key value text h);
  del_get = λ keys k text s h. forget-look keys k text s h;
  scan_complete = λ prefix k text s keys h plain inside held. keys_of_complete k text s keys h held;
}
