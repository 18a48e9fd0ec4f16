-- ===== src/Photo/Owner.antt =====
-- Whose photo a key is: the check of `ConfirmStudentPhotoHandler` and its copies, across the tables.
use text.Mathlib.TextLemmas.{nil-append, cons-append, append_cancel_left}
use mathlib.Core.Bool.{false≢true}
use mathlib.Core.Path.{subst}
use student_system_go.Common.{
  ℕ, ◌≡◌, refl, sym, ap, ◌∙◌, code, ◌==◌, not, ◌&&◌, String, Bool, true, Option, none, some, inl,
  inr, eq_iff, Bool-cases, if◌then◌else◌,
}
use student_system_go.Common.Int.{ℤ, pos, negsuc, not_positive}
use student_system_go.Common.Text.{◌<>◌, has_prefix, has_prefix-rest, atoi}
use student_system_go.Common.Decimal.{itoa}
use student_system_go.Sql.{Sql}
use student_system_go.Http.{sent, at_least_one}
use student_system_go.Http.Sent.{with_role-sent, parsed-sent, require-sent}
use student_system_go.Handlers.Blank.{Table, students, teachers, execs, entity_of}
use student_system_go.Entity.{Entity}
use student_system_go.Photo.{
  Bucket, PhotoWorld, PhotoRequest, PhotoRoutes, student_photos, teacher_photos, exec_photos,
  expected_prefix, text_body, confirm_photo,
}
use student_system_go.Photo.Keys.{expected_prefix-append, expected_prefix-inj}

abbrev pub photos_of : Table → PhotoRoutes
photos_of students = student_photos
photos_of teachers = teacher_photos
photos_of execs = exec_photos

-- The text before the first slash.
unfoldable front : String → String
front String.[] = String.[]
front (String.◌∷◌ c s) = if code c == b'/' then String.[] else String.◌∷◌ c (front s)

unfoldable no_slash : String → Bool
no_slash String.[] = true
no_slash (String.◌∷◌ c s) = not (code c == b'/') && no_slash s

front-append : (s t : String) → no_slash s ≡ true → front (s <> "/" <> t) ≡ s
unfolding front no_slash
front-append String.[] t h = rw (nil-append, cons-append)
front-append (String.◌∷◌ c s) t h = elim (Bool-cases (code c == b'/')) [
  | inl slash ↦ cc (rw slash at h)
  | inr other ↦ rw (cons-append, other, front-append s t (rw other at h))
]

name-no_slash : (t : Table) → no_slash (photos_of t).name ≡ true
unfolding no_slash
name-no_slash students = refl
name-no_slash teachers = refl
name-no_slash execs = refl

photos_of-inj : (a b : Table) → (photos_of a).name ≡ (photos_of b).name → a ≡ b
photos_of-inj students students h = refl
photos_of-inj teachers teachers h = refl
photos_of-inj execs execs h = refl
photos_of-inj students teachers h = absurd (false≢true ((eq_iff "students" "teachers").1 h))
photos_of-inj students execs h = absurd (false≢true ((eq_iff "students" "execs").1 h))
photos_of-inj teachers students h = absurd (false≢true ((eq_iff "teachers" "students").1 h))
photos_of-inj teachers execs h = absurd (false≢true ((eq_iff "teachers" "execs").1 h))
photos_of-inj execs students h = absurd (false≢true ((eq_iff "execs" "students").1 h))
photos_of-inj execs teachers h = absurd (false≢true ((eq_iff "execs" "teachers").1 h))

-- A key that two tables accept is one of the same table.
accepted-table :
    (a b : Table) (i j : ℤ) (key : String)
    → has_prefix key (expected_prefix (photos_of a).name i) ≡ true
    → has_prefix key (expected_prefix (photos_of b).name j) ≡ true
    → a ≡ b
accepted-table a b i j key h k =
    let (s, of_a) = has_prefix-rest key (expected_prefix (photos_of a).name i) h in
    let (t, of_b) = has_prefix-rest key (expected_prefix (photos_of b).name j) k in
    let rest = append_cancel_left "photos/" _ _ (
      sym (expected_prefix-append (photos_of a).name i s)
      ∙ sym of_a
      ∙ of_b
      ∙ expected_prefix-append (photos_of b).name j t) in
    photos_of-inj a b (
      sym (front-append (photos_of a).name (itoa i <> "/profile" <> s) (name-no_slash a))
      ∙ ap front rest
      ∙ front-append (photos_of b).name (itoa j <> "/profile" <> t) (name-no_slash b))

at_least_one-pos : (o : Option ℤ) (i : ℤ) → at_least_one o ≡ some i → (n : ℕ) × (i ≡ pos n)
at_least_one-pos none i h = cc
at_least_one-pos (some (pos n)) i h = elim (Bool-cases (not_positive (pos n))) [
  | inl bad ↦ cc (rw bad at h)
  | inr good ↦ (n, cc (rw good at h))
]
at_least_one-pos (some (negsuc n)) i h = cc

module _ {db : Sql} {bucket : Bucket} where
  -- What a confirmation that is answered with success has checked.
  confirm_photo-checked :
      {R : Type 0} (e : Entity R) (routes : PhotoRoutes) (r : PhotoRequest)
      (w v : PhotoWorld db bucket) (status : ℕ)
      → confirm_photo db bucket e routes r w ≡ (sent status tt, v)
      → (n : ℕ) × (key : String) × (at_least_one (atoi r.id) ≡ some (pos n))
        × (text_body "key" r.body ≡ some key)
        × (has_prefix key (expected_prefix routes.name (pos n)) ≡ true)
  unfolding confirm_photo
  confirm_photo-checked e routes r w v status q =
      let (role, has, may, q1) = with_role-sent r.role routes.write_roles _ w q in
      let (id, at, q2) = parsed-sent (at_least_one (atoi r.id)) routes.id_message _ w q1 in
      let (key, body, q3) = parsed-sent (text_body "key" r.body) "invalid request body" _ w q2 in
      let (accepted, q4) =
        require-sent (has_prefix key (expected_prefix routes.name id)) routes.mismatch_message _ w
          q3 in
      let (n, is_pos) = at_least_one-pos (atoi r.id) id at in
      (
        n,
        key,
        at ∙ ap some is_pos,
        body,
        subst (λ i. has_prefix key (expected_prefix routes.name i) ≡ true) is_pos accepted,
      )

  -- No confirmation records a key that one of another row may record: two confirmations of the same key
  -- that are both answered with success are of the same table and for the same id.
  pub confirm_photo-same_row :
      (a b : Table) (key : String) (r s : PhotoRequest) (w v w' v' : PhotoWorld db bucket) (m n : ℕ)
      → text_body "key" r.body ≡ some key
      → text_body "key" s.body ≡ some key
      → confirm_photo db bucket (entity_of a) (photos_of a) r w ≡ (sent m tt, v)
      → confirm_photo db bucket (entity_of b) (photos_of b) s w' ≡ (sent n tt, v')
      → (a ≡ b) × (at_least_one (atoi r.id) ≡ at_least_one (atoi s.id))
  confirm_photo-same_row a b key r s w v w' v' m n has_key has_same first second =
      let (i, k, at_i, body_i, ok_i) =
        confirm_photo-checked (entity_of a) (photos_of a) r w v m first in
      let (j, l, at_j, body_j, ok_j) =
        confirm_photo-checked (entity_of b) (photos_of b) s w' v' n second in
      let is_k : k ≡ key = cc (body_i, has_key) in
      let is_l : l ≡ key = cc (body_j, has_same) in
      let of_a =
        subst (λ x. has_prefix x (expected_prefix (photos_of a).name (pos i)) ≡ true) is_k ok_i in
      let of_b =
        subst (λ x. has_prefix x (expected_prefix (photos_of b).name (pos j)) ≡ true) is_l ok_j in
      let same_table = accepted-table a b (pos i) (pos j) key of_a of_b in
      let same_id =
        expected_prefix-inj (photos_of b).name key i j
          (subst (λ t. has_prefix key (expected_prefix (photos_of t).name (pos i)) ≡ true)
            same_table of_a)
          of_b in
      (same_table, at_i ∙ ap (λ x. some (pos x)) same_id ∙ sym at_j)
