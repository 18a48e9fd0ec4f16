-- ===== src/Reflect/Tests.antt =====
use student_system_go.Common.{◌≡◌, refl, some}
use student_system_go.Common.Int.{pos}
use student_system_go.Models.{student_fields, zero_student}
use student_system_go.Reflect.{generate_insert_query}
use student_system_go.Reflect.Json.{Json, end, member}
use student_system_go.Reflect.Decode.{decode_struct}

insert_query :
    generate_insert_query "students" student_fields
    ≡ "INSERT INTO students (first_name, last_name, email, class, photo_s3_key) VALUES (?, ?, ?, ?, ?)"
unfolding generate_insert_query
insert_query = refl

decode_folds_case :
    decode_struct student_fields zero_student
      (Json.obj (member "Email" (Json.str "a@b") (member "id" (Json.num (pos 7)) end)))
    ≡ some (record zero_student { email = "a@b"; id = pos 7 })
unfolding decode_struct
decode_folds_case = refl
