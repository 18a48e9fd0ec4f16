-- ===== src/Handlers/Access.antt =====
-- Who may do what: the handlers answer 401 without a role and 403 with a role that is not listed, and
-- then change nothing.
use student_system_go.Common.{
  ◌≡◌, refl, ◌∙◌, sym, ◌⊎◌, inl, inr, ◌↔◌, String, true, Option, none, some, List, [], ◌∷◌,
  Bool-cases, eq_iff,
}
use student_system_go.Common.Text.{same}
use student_system_go.Go.{Result, Call}
use student_system_go.Sql.{Sql, Pool}
use student_system_go.Cache.{Redis, Codec}
use student_system_go.Entity.{Entity}
use student_system_go.Http.{Reply, failed, World, Handler, authorize_user, with_role}
use student_system_go.Handlers.{
  Request, Routes, get_all, get_one, add, update, patch_one, delete_one, patch_all, delete_all,
}
use student_system_go.Handlers.Lists.{get_students_by_teacher_id, get_student_count_by_teacher_id}

abbrev pub IsListed : String → List String → Type 0
IsListed s [] = ⊥
IsListed s (t ∷ ts) = (s ≡ t) ⊎ IsListed s ts

-- `AuthorizeUser` returns no error exactly for a role that is one of the allowed roles.
pub authorize_user_iff :
    (role : String) (roles : List String) → (authorize_user role roles ≡ true) ↔ IsListed role roles
unfolding authorize_user
authorize_user_iff role [] = (λ h. cc, λ h. absurd h)
authorize_user_iff role (t ∷ ts) = elim (Bool-cases (same role t)) [
  | inl here ↦ (λ h. inl ((eq_iff role t).0 here), λ h. rw here)
  | inr other ↦ (
    λ h. inr ((authorize_user_iff role ts).0 (rw other at h)),
    λ h. elim h [
      | inl equal ↦ cc (sym other ∙ (eq_iff role t).1 equal)
      | inr later ↦ rw other ((authorize_user_iff role ts).1 later)
    ],
  )
]

module _ {W A : Type 0} where
  -- What a handler that serves `roles` has answered, `x`, from the state `w`.
  abbrev pub Guarded : Option String → List String → W → Reply A × W → Type 0
  Guarded none roles w x = x ≡ (failed 401 "missing role in context", w)
  Guarded (some role) roles w x = (x ≡ (failed 403 "user not authorised", w)) ⊎ IsListed role roles

  with_role-Guarded :
      (role : Option String) (roles : List String) (h : Handler W A) (w : W)
      → Guarded role roles w (with_role role roles h w)
  unfolding with_role
  with_role-Guarded none roles h w = refl
  with_role-Guarded (some role) roles h w = elim (Bool-cases (authorize_user role roles)) [
    | inl may ↦ inr ((authorize_user_iff role roles).0 may)
    | inr may_not ↦ inl (rw may_not)
  ]

module _ (db : Sql) (redis : Redis) {R : Type 0} (e : Entity R) (routes : Routes) where
  -- The eight handlers of the rows of a table, and the two of the students of a teacher, each with the
  -- roles that it serves.
  abbrev pub AllGuarded :
      {A : Type 0}
      → Codec A
      → (Pool db → Result A)
      → (List R → Call (Pool db) (List R))
      → Request
      → World db redis
      → Type 0
  AllGuarded codec load insert r w =
      Guarded r.role routes.read_roles w (get_all db redis e routes codec load r w)
      × Guarded r.role routes.read_roles w (get_one db redis e routes r w)
      × Guarded r.role routes.add_roles w (add db redis e routes insert r w)
      × Guarded r.role routes.edit_roles w (update db redis e routes r w)
      × Guarded r.role routes.edit_roles w (patch_one db redis e routes r w)
      × Guarded r.role routes.admin_roles w (delete_one db redis e routes r w)
      × Guarded r.role routes.admin_roles w (patch_all db redis e routes r w)
      × Guarded r.role routes.admin_roles w (delete_all db redis e routes r w)
      × Guarded r.role ("admin" ∷ "manager" ∷ "exec" ∷ "teacher" ∷ []) w
          (get_students_by_teacher_id db redis r w)
      × Guarded r.role ("admin" ∷ "manager" ∷ "exec" ∷ []) w
          (get_student_count_by_teacher_id db redis r w)

  -- The eight handlers of the rows of a table (list, read, add, update, patch, delete, and the two bulk
  -- ones) and the two of the students of a teacher do nothing without a role that they list: without a
  -- role in the context they answer 401, with a role that is not listed they answer 403, and in both
  -- cases the database and the cache are as they were. The handlers of passwords and logins are not
  -- among them.
  pub handlers-AllGuarded :
      {A : Type 0} (codec : Codec A) (load : Pool db → Result A)
      (insert : List R → Call (Pool db) (List R)) (r : Request) (w : World db redis)
      → AllGuarded codec load insert r w
  unfolding get_all get_one add update patch_one delete_one patch_all delete_all
      get_students_by_teacher_id get_student_count_by_teacher_id
  handlers-AllGuarded codec load insert r w = (
    with_role-Guarded _ _ _ w,
    with_role-Guarded _ _ _ w,
    with_role-Guarded _ _ _ w,
    with_role-Guarded _ _ _ w,
    with_role-Guarded _ _ _ w,
    with_role-Guarded _ _ _ w,
    with_role-Guarded _ _ _ w,
    with_role-Guarded _ _ _ w,
    with_role-Guarded _ _ _ w,
    with_role-Guarded _ _ _ w,
  )
