-- ===== src/Models.antt =====
-- internal/models: the structs and, as field lists, what `reflect` and `encoding/json` see of them.
use student_system_go.Common.{String, Bool, false, Option, none, List, [], ◌∷◌}
use student_system_go.Common.Int.{ℤ, pos}
use student_system_go.Reflect.{Field, int_slot, string_slot, bool_slot, null_string_slot}

pub record Student : Type 0 where
  pub id : ℤ
  pub first_name : String
  pub last_name : String
  pub email : String
  pub class : String
  pub photo_s3_key : String

pub record Teacher : Type 0 where
  pub id : ℤ
  pub first_name : String
  pub last_name : String
  pub email : String
  pub class : String
  pub subject : String
  pub photo_s3_key : String

pub record Exec : Type 0 where
  pub id : ℤ
  pub first_name : String
  pub last_name : String
  pub email : String
  pub username : String
  pub password : String
  pub password_changed_at : Option String
  pub user_created_at : Option String
  pub password_reset_code : Option String
  pub password_reset_code_expires : Option String
  pub inactive_status : Bool
  pub role : String
  pub photo_s3_key : String

abbrev pub zero_student : Student
zero_student = record {
  id = pos 0;
  first_name = "";
  last_name = "";
  email = "";
  class = "";
  photo_s3_key = "";
}

abbrev pub zero_teacher : Teacher
zero_teacher = record {
  id = pos 0;
  first_name = "";
  last_name = "";
  email = "";
  class = "";
  subject = "";
  photo_s3_key = "";
}

abbrev pub zero_exec : Exec
zero_exec = record {
  id = pos 0;
  first_name = "";
  last_name = "";
  email = "";
  username = "";
  password = "";
  password_changed_at = none;
  user_created_at = none;
  password_reset_code = none;
  password_reset_code_expires = none;
  inactive_status = false;
  role = "";
  photo_s3_key = "";
}

abbrev pub student_fields : List (Field Student)
student_fields =
    record {
      json = "id,omitempty";
      db = "id,omitempty";
      slot = int_slot (λ s. s.id) (λ v s. record s { id = v });
    }
    ∷ record {
      json = "first_name,omitempty";
      db = "first_name,omitempty";
      slot = string_slot (λ s. s.first_name) (λ v s. record s { first_name = v });
    }
    ∷ record {
      json = "last_name,omitempty";
      db = "last_name,omitempty";
      slot = string_slot (λ s. s.last_name) (λ v s. record s { last_name = v });
    }
    ∷ record {
      json = "email,omitempty";
      db = "email,omitempty";
      slot = string_slot (λ s. s.email) (λ v s. record s { email = v });
    }
    ∷ record {
      json = "class,omitempty";
      db = "class,omitempty";
      slot = string_slot (λ s. s.class) (λ v s. record s { class = v });
    }
    ∷ record {
      json = "-";
      db = "photo_s3_key,omitempty";
      slot = string_slot (λ s. s.photo_s3_key) (λ v s. record s { photo_s3_key = v });
    }
    ∷ []

abbrev pub teacher_fields : List (Field Teacher)
teacher_fields =
    record {
      json = "id,omitempty";
      db = "id,omitempty";
      slot = int_slot (λ t. t.id) (λ v t. record t { id = v });
    }
    ∷ record {
      json = "first_name,omitempty";
      db = "first_name,omitempty";
      slot = string_slot (λ t. t.first_name) (λ v t. record t { first_name = v });
    }
    ∷ record {
      json = "last_name,omitempty";
      db = "last_name,omitempty";
      slot = string_slot (λ t. t.last_name) (λ v t. record t { last_name = v });
    }
    ∷ record {
      json = "email,omitempty";
      db = "email,omitempty";
      slot = string_slot (λ t. t.email) (λ v t. record t { email = v });
    }
    ∷ record {
      json = "class,omitempty";
      db = "class,omitempty";
      slot = string_slot (λ t. t.class) (λ v t. record t { class = v });
    }
    ∷ record {
      json = "subject,omitempty";
      db = "subject,omitempty";
      slot = string_slot (λ t. t.subject) (λ v t. record t { subject = v });
    }
    ∷ record {
      json = "-";
      db = "photo_s3_key,omitempty";
      slot = string_slot (λ t. t.photo_s3_key) (λ v t. record t { photo_s3_key = v });
    }
    ∷ []

abbrev pub exec_fields : List (Field Exec)
exec_fields =
    record {
      json = "id,omitempty";
      db = "id,omitempty";
      slot = int_slot (λ e. e.id) (λ v e. record e { id = v });
    }
    ∷ record {
      json = "firstname,omitempty";
      db = "first_name,omitempty";
      slot = string_slot (λ e. e.first_name) (λ v e. record e { first_name = v });
    }
    ∷ record {
      json = "lastname,omitempty";
      db = "last_name,omitempty";
      slot = string_slot (λ e. e.last_name) (λ v e. record e { last_name = v });
    }
    ∷ record {
      json = "email,omitempty";
      db = "email,omitempty";
      slot = string_slot (λ e. e.email) (λ v e. record e { email = v });
    }
    ∷ record {
      json = "username,omitempty";
      db = "username,omitempty";
      slot = string_slot (λ e. e.username) (λ v e. record e { username = v });
    }
    ∷ record {
      json = "password,omitempty";
      db = "password,omitempty";
      slot = string_slot (λ e. e.password) (λ v e. record e { password = v });
    }
    ∷ record {
      json = "password_changed_at,omitempty";
      db = "password_changed_at,omitempty";
      slot =
          null_string_slot (λ e. e.password_changed_at)
            (λ v e. record e { password_changed_at = v });
    }
    ∷ record {
      json = "user_created_at,omitempty";
      db = "user_created_at,omitempty";
      slot = null_string_slot (λ e. e.user_created_at) (λ v e. record e { user_created_at = v });
    }
    ∷ record {
      json = "password_reset_code,omitempty";
      db = "password_reset_code,omitempty";
      slot =
          null_string_slot (λ e. e.password_reset_code)
            (λ v e. record e { password_reset_code = v });
    }
    ∷ record {
      json = "password_reset_code_expires,omitempty";
      db = "password_reset_code_expires,omitempty";
      slot =
          null_string_slot (λ e. e.password_reset_code_expires)
            (λ v e. record e { password_reset_code_expires = v });
    }
    ∷ record {
      json = "inactive_status,omitempty";
      db = "inactive_status,omitempty";
      slot = bool_slot (λ e. e.inactive_status) (λ v e. record e { inactive_status = v });
    }
    ∷ record {
      json = "role,omitempty";
      db = "role,omitempty";
      slot = string_slot (λ e. e.role) (λ v e. record e { role = v });
    }
    ∷ record {
      json = "-";
      db = "photo_s3_key,omitempty";
      slot = string_slot (λ e. e.photo_s3_key) (λ v e. record e { photo_s3_key = v });
    }
    ∷ []
