-- ===== src/Repo/Photo/Keys.antt =====
-- `SetStudentPhotoKey` with its copies: what is recorded.
use mathlib.Core.Path.{fun_ext}
use student_system_go.Common.{
  ℕ, ◌==◌, ◌≡◌, ◌≢◌, refl, ◌∙◌, sym, ap, ◌⊎◌, inl, inr, String, Bool, true, false, Option, none,
  some, List, [], ◌∷◌, arith, eq_refl, if◌then◌else◌,
}
use student_system_go.Common.Int.{ℤ, ==ℤ_refl}
use student_system_go.Common.Text.{non_empty}
use student_system_go.Go.{Result, ok, err, panic, ⊤, Call, pure, raise, ◌>>=◌}
use student_system_go.Reflect.{Value, int, null_or_text}
use student_system_go.Sql.{Sql, Done, done, refused, Pool, connect_db}
use student_system_go.Entity.{Entity}
use student_system_go.Repo.{not_refused}
use student_system_go.Repo.Photo.{rows_of, set_photo_key}
use student_system_go.Repo.Photo.Rows.{Photos, set_photo, same_key, changed, IsPhotoTable}

some-inj : {A : Type 0} {a b : A} → some a ≡ some b → a ≡ b
some-inj h = cc

same_key_refl : (k : Option String) → same_key k k ≡ true
same_key_refl none = refl
same_key_refl (some s) = eq_refl s

module _ {db : Sql} {R : Type 0} {e : Entity R} (t : IsPhotoTable db e) where
  -- How a call that sets the photo of `id` to `k` may end, from the photos `v`.
  abbrev pub SetEnds : ℤ → Option String → Photos → Result ⊤ × Pool db → Type 0
  SetEnds id k v (ok x, q) =
      ((old : Option String) × (v id ≡ some old) × (same_key old k ≡ false))
      × (t.photos q.server ≡ set_photo id k v)
  SetEnds id k v (err m, q) = (t.photos q.server ≡ v) ⊎ (t.photos q.server ≡ set_photo id k v)
  SetEnds id k v (panic, q) = ⊥

  changed_positive :
      (k : Option String) (o : Option (Option String))
      → (changed k o == 0) ≡ false
      → (old : Option String) × (o ≡ some old) × (same_key old k ≡ false)
  changed_positive k none h = cc
  changed_positive k (some old) h = (old, refl, ground arith)

  abbrev counted : Option ℕ → Call (Pool db) ⊤
  counted n = if rows_of n == 0 then raise e.messages.not_found else pure tt

  counted-SetEnds :
      (id : ℤ) (k : Option String) (v : Photos) (n : Option ℕ) (q : Pool db)
      → t.photos q.server ≡ set_photo id k v
      → ((m : ℕ) → n ≡ some m → m ≡ changed k (v id))
      → SetEnds id k v (counted n q)
  counted-SetEnds id k v none q stored counts = inr stored
  counted-SetEnds id k v (some n) q stored counts = go (n == 0) refl
    where
      go :
          (b : Bool)
          → (n == 0) ≡ b
          → SetEnds id k v ((if b then raise e.messages.not_found else pure tt) q)
      go true zeros = inr stored
      go false positive =
          (changed_positive k (v id) (ap (λ m. m == 0) (sym (counts n refl)) ∙ positive), stored)

  done-SetEnds :
      (id : ℤ) (k : Option String) (p q : Pool db) (d : Done)
      → ((n : Option ℕ) (l : Option ℤ)
          → d ≡ done n l
          → (j : ℤ) → t.photos q.server j ≡ set_photo id k (t.photos p.server) j)
      → ((n : ℕ) (l : Option ℤ) → d ≡ done (some n) l → n ≡ changed k (t.photos p.server id))
      → ((cause : String) → d ≡ refused cause → (j : ℤ) → t.photos q.server j ≡ t.photos p.server j)
      → SetEnds id k
          (t.photos p.server)
          ((do (n, l) ← not_refused db d (λ cause. e.messages.photo_update_failed); counted n) q)
  done-SetEnds id k p q (done n l) law counts kept =
      counted-SetEnds id k (t.photos p.server) n q (fun_ext (law n l refl))
        (λ m h. counts m l (ap (λ x. done x l) h))
  done-SetEnds id k p q (refused cause) law counts kept = inl (fun_ext (kept cause refl))

  -- Setting a photo never panics. It succeeds only if the row was there with another key, and then
  -- exactly the column of that row holds the new key (NULL for the empty text); if it fails, the
  -- column holds the new key or is as it was, and every other row is as it was.
  pub set_photo_key-SetEnds :
      (id : ℤ) (key : String) (p : Pool db)
      → SetEnds id (non_empty key) (t.photos p.server) (set_photo_key db e id key p)
  unfolding set_photo_key connect_db
  set_photo_key-SetEnds id key p = go p.ready
    where
      at : Bool → Pool db
      at b = record p { ready = b }

      args : List Value
      args = null_or_text (non_empty key) ∷ int id ∷ []

      go :
          (b : Bool)
          → SetEnds id (non_empty key) (t.photos p.server) (set_photo_key db e id key (at b))
      go false = inl refl
      go true =
          done-SetEnds id (non_empty key) p
            (record (at true) { server = (db.exec e.update_photo args p.server).1 })
            (db.exec e.update_photo args p.server).0 (t.photo_update id (non_empty key) p.server)
            (t.photo_count id (non_empty key) p.server)
            (t.photo_refused e.update_photo args p.server)

  -- The column of `id` after a call that has succeeded.
  stored_photo :
      (id : ℤ) (k : Option String) (v w : Photos)
      → (old : Option String) × (v id ≡ some old) × (same_key old k ≡ false)
      → w ≡ set_photo id k v
      → w id ≡ some k
  stored_photo id k v w (old, here, other) h =
      ap (λ (f : Photos). f id) h ∙ (rw (==ℤ_refl id, here))

  set_photo_key-stored :
      (id : ℤ) (key : String) (p : Pool db)
      → (set_photo_key db e id key p).0 ≡ ok tt
      → t.photos (set_photo_key db e id key p).1.server id ≡ some (non_empty key)
  set_photo_key-stored id key p h =
      go (set_photo_key db e id key p).0 h (set_photo_key-SetEnds id key p)
    where
      q : Pool db
      q = (set_photo_key db e id key p).1

      go :
          (r : Result ⊤)
          → r ≡ ok tt
          → SetEnds id (non_empty key) (t.photos p.server) (r, q)
          → t.photos q.server id ≡ some (non_empty key)
      go (ok x) h ends =
          stored_photo id (non_empty key) (t.photos p.server) (t.photos q.server) ends.0 ends.1
      go (err m) h ends = cc
      go panic h ends = cc

  -- Recording the key that a row already holds is reported as an error. After a call that has
  -- succeeded, the same call does not succeed again.
  pub set_photo_key-twice :
      (id : ℤ) (key : String) (p : Pool db)
      → (set_photo_key db e id key p).0 ≡ ok tt
      → (set_photo_key db e id key (set_photo_key db e id key p).1).0 ≢ ok tt
  set_photo_key-twice id key p h again =
      go (set_photo_key db e id key q).0 again (set_photo_key-SetEnds id key q)
    where
      q : Pool db
      q = (set_photo_key db e id key p).1

      go :
          (r : Result ⊤)
          → r ≡ ok tt
          → SetEnds id (non_empty key) (t.photos q.server) (r, (set_photo_key db e id key q).1)
          → ⊥
      go (ok x) a ((old, here, other), w) =
          let kept = set_photo_key-stored id key p h in
          let same_as_old : some old ≡ some (non_empty key) = sym here ∙ kept in
          cc (same_key_refl (non_empty key), other)
      go (err m) a ends = cc
      go panic a ends = cc
