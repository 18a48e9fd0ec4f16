-- ===== src/Router.antt =====
-- internal/api/router: the tables of routes, and how net/http's mux reads them. A path is one that the mux
-- does not redirect: it begins with "/" and has no empty segment but a last one.
pub mod Apart
mod Tests
use student_system_go.Common.{
  ℕ, String, Bool, true, false, ◌&&◌, ◌||◌, not, Option, none, some, List, [], ◌∷◌, if◌then◌else◌,
}
use student_system_go.Common.Text.{same, split, cut_at, has_prefix}

-- A segment of a pattern: `{name}` stands for one segment that is not empty.
pub data Segment : Type 0 where
  literal : String → Segment
  wildcard : Segment

pub record Pattern : Type 0 where
  pub method : String
  pub segments : List Segment

abbrev segment_of : String → Segment
unfolding has_prefix
segment_of s = if has_prefix s "{" then wildcard else literal s

abbrev segments_of : List String → List Segment
unfolding has_prefix
segments_of [] = []
segments_of (s ∷ ss) = segment_of s ∷ segments_of ss

abbrev pattern_of : String → Option (String × String) → Pattern
unfolding has_prefix split
pattern_of text none = record { method = ""; segments = segments_of (split b'/' text) }
pattern_of text (some (method, path)) = record {
  method = method;
  segments = segments_of (split b'/' path);
}

-- The pattern that a text like "GET /students/{id}" stands for.
unfoldable pub parse_pattern : String → Pattern
unfolding has_prefix split cut_at
parse_pattern text = pattern_of text (cut_at b' ' text)

abbrev pub matches_segment : Segment → String → Bool
matches_segment (literal t) s = same s t
matches_segment wildcard s = not (same s "")

abbrev pub matches_segments : List Segment → List String → Bool
matches_segments [] [] = true
matches_segments (p ∷ ps) (s ∷ ss) = matches_segment p s && matches_segments ps ss
matches_segments _ _ = false

-- A pattern for GET serves HEAD too.
abbrev pub matches_method : String → String → Bool
matches_method wanted method = same method wanted || (same wanted "GET" && same method "HEAD")

abbrev pub matches : Pattern → String → List String → Bool
matches p method segments = matches_method p.method method && matches_segments p.segments segments

-- A table: the patterns with the names of their handlers.
abbrev pub Table : Type 0
Table = List (String × String)

-- `teachersRouter`
abbrev pub teachers_router : Table
teachers_router =
    ("GET /teachers", "GetTeachersHandler")
    ∷ ("POST /teachers", "AddTeacherHandler")
    ∷ ("PATCH /teachers", "PatchTeachersHandler")
    ∷ ("DELETE /teachers", "DeleteTeachersHandler")
    ∷ ("PUT /teachers/{id}", "UpdateTeacherHandler")
    ∷ ("GET /teachers/{id}", "GetOneTeacherHandler")
    ∷ ("PATCH /teachers/{id}", "PatchOneTeacherHandler")
    ∷ ("DELETE /teachers/{id}", "DeleteOneTeacherHandler")
    ∷ ("GET /teachers/{id}/students", "GetStudentsByTeacherId")
    ∷ ("GET /teachers/{id}/studentcount", "GetStudentCountByTeacherId")
    ∷ ("POST /teachers/{id}/photo/presign-upload", "PresignTeacherPhotoUploadHandler")
    ∷ ("POST /teachers/{id}/photo/confirm", "ConfirmTeacherPhotoHandler")
    ∷ ("GET /teachers/{id}/photo", "GetTeacherPhotoHandler")
    ∷ ("DELETE /teachers/{id}/photo", "DeleteTeacherPhotoHandler")
    ∷ []

-- `studentsRouter`
abbrev pub students_router : Table
students_router =
    ("GET /students", "GetStudentsHandler")
    ∷ ("POST /students", "AddStudentHandler")
    ∷ ("PATCH /students", "PatchStudentsHandler")
    ∷ ("DELETE /students", "DeleteStudentsHandler")
    ∷ ("PUT /students/{id}", "UpdateStudentHandler")
    ∷ ("GET /students/{id}", "GetOneStudentHandler")
    ∷ ("PATCH /students/{id}", "PatchOneStudentHandler")
    ∷ ("DELETE /students/{id}", "DeleteOneStudentHandler")
    ∷ ("POST /students/{id}/photo/presign-upload", "PresignStudentPhotoUploadHandler")
    ∷ ("POST /students/{id}/photo/confirm", "ConfirmStudentPhotoHandler")
    ∷ ("GET /students/{id}/photo", "GetStudentPhotoHandler")
    ∷ ("DELETE /students/{id}/photo", "DeleteStudentPhotoHandler")
    ∷ []

-- `execsRouter`, and what `MainRouter` adds to it
abbrev pub execs_router : Table
execs_router =
    ("GET /execs", "GetExecsHandler")
    ∷ ("POST /execs", "AddExecsHandler")
    ∷ ("PATCH /execs", "PatchExecsHandler")
    ∷ ("GET /execs/{id}", "GetOneExecHandler")
    ∷ ("PATCH /execs/{id}", "PatchOneExecsHandler")
    ∷ ("DELETE /execs/{id}", "DeleteOneExecHandler")
    ∷ ("POST /execs/login", "LoginHandler")
    ∷ ("POST /execs/logout", "LogOutHandler")
    ∷ ("POST /execs/forgotpassword", "ForgotPasswordHandler")
    ∷ ("POST /execs/resetpassword/reset/{resetcode}", "ResetPasswordHandler")
    ∷ ("POST /execs/{id}/updatepassword", "UpdatePasswordHandler")
    ∷ ("POST /execs/{id}/photo/presign-upload", "PresignExecPhotoUploadHandler")
    ∷ ("POST /execs/{id}/photo/confirm", "ConfirmExecPhotoHandler")
    ∷ ("GET /execs/{id}/photo", "GetExecPhotoHandler")
    ∷ ("DELETE /execs/{id}/photo", "DeleteExecPhotoHandler")
    ∷ ("GET /healthz", "healthz")
    ∷ ("GET /metrics", "promhttp.Handler")
    ∷ []

-- The first entry of a table that matches.
abbrev pub find_route : Table → String → List String → Option (String × String)
find_route [] method segments = none
find_route ((text, name) ∷ table) method segments =
    let rest = find_route table method segments in
    if matches (parse_pattern text) method segments then some (text, name) else rest

-- What a mux answers that has no entry for a request: 405 if it has one for another method.
abbrev pub has_path : Table → List String → Bool
has_path [] segments = false
has_path ((text, name) ∷ table) segments =
    matches_segments (parse_pattern text).segments segments || has_path table segments

pub data Routed : Type 0 where
  handled : String → String → Routed
  not_found method_not_allowed : Routed

abbrev or_else : Option (String × String) → Routed → Routed
or_else none rest = rest
or_else (some (text, name)) rest = handled text name

-- `MainRouter`: the mux of the teachers hands what it has no entry for, also for another method, to that
-- of the students, by its pattern "/", and this one to that of the execs.
unfoldable pub main_router : String → String → Routed
unfolding split parse_pattern
main_router method path =
    let segments = split b'/' path in
    or_else (find_route teachers_router method segments) (
      or_else (find_route students_router method segments) (
        or_else (find_route execs_router method segments)
          (if has_path execs_router segments then method_not_allowed else not_found)))
