-- ===== src/Photo/Keys.antt =====
-- The keys of the photos: `BuildKey` of internal/storage/photo/photo.go against the check of
-- `ConfirmStudentPhotoHandler` and its copies.
use text.Mathlib.TextLemmas.{append_assoc, append_cancel_left}
use student_system_go.Common.{ℕ, ◌≡◌, sym, ap, ◌∙◌, String, true, if◌then◌else◌}
use student_system_go.Common.Int.{ℤ, pos}
use student_system_go.Common.Text.{same, ◌<>◌, has_prefix, has_prefix-append, has_prefix-rest}
use student_system_go.Common.Decimal.{itoa, itoa-slash-inj}
use student_system_go.Photo.{expected_prefix, build_key}

-- The parts of a key after the prefix.
pub expected_prefix-append :
    (entity : String) (id : ℤ) (t : String)
    → expected_prefix entity id <> t ≡ "photos/" <> entity <> "/" <> itoa id <> "/profile" <> t
expected_prefix-append entity id t =
    append_assoc "photos/" (entity <> "/" <> itoa id <> "/profile") t
    ∙ ap (λ x. "photos/" <> x)
        (append_assoc entity ("/" <> itoa id <> "/profile") t
          ∙ ap (λ x. entity <> x)
              (append_assoc "/" (itoa id <> "/profile") t
                ∙ ap (λ x. "/" <> x) (append_assoc (itoa id) "/profile" t)))

-- The key that is issued for a photo begins with the prefix that its confirmation asks for.
pub build_key-accepted :
    (entity : String) (id : ℤ) (ext : String)
    → has_prefix (build_key entity id ext) (expected_prefix entity id) ≡ true
unfolding build_key
build_key-accepted entity id ext =
    let x = if same ext "" then ".jpg" else ext in
    ap (λ k. has_prefix k (expected_prefix entity id)) (sym (expected_prefix-append entity id x))
    ∙ has_prefix-append (expected_prefix entity id) x

-- A key has the prefix of one id of an entity at most.
pub expected_prefix-inj :
    (entity key : String) (a b : ℕ)
    → has_prefix key (expected_prefix entity (pos a)) ≡ true
    → has_prefix key (expected_prefix entity (pos b)) ≡ true
    → a ≡ b
expected_prefix-inj entity key a b h k =
    let (s, of_a) = has_prefix-rest key (expected_prefix entity (pos a)) h in
    let (t, of_b) = has_prefix-rest key (expected_prefix entity (pos b)) k in
    let whole =
      sym (expected_prefix-append entity (pos a) s)
      ∙ sym of_a
      ∙ of_b
      ∙ expected_prefix-append entity (pos b) t in
    let numbers =
      append_cancel_left "/" _ _
        (append_cancel_left entity _ _ (append_cancel_left "photos/" _ _ whole)) in
    itoa-slash-inj a b ("profile" <> s) ("profile" <> t) (
      ap (λ x. itoa (pos a) <> x) (sym (append_assoc "/" "profile" s))
      ∙ numbers
      ∙ ap (λ x. itoa (pos b) <> x) (append_assoc "/" "profile" t))
