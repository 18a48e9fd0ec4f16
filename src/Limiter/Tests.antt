-- ===== src/Limiter/Tests.antt =====
-- The theorems on the limiter at concrete requests, with counters in memory.
use student_system_go.Common.{ℕ, suc, String, some, List, [], ◌∷◌, if◌then◌else◌, arith}
use student_system_go.Common.Text.{same}
use student_system_go.Limiter.{Counters, Limit, Visit, decide}
use student_system_go.Limiter.Window.{Tells, decide-Tells}

abbrev in_memory : Counters
in_memory = record {
  S = String → ℕ;
  incr = λ k s. (some (suc (s k)), λ j. if same j k then suc (s k) else s j);
  expire = λ k seconds s. s;
}

abbrev login : Limit
login = record { name = "login"; limit = 2; window = 60 }

abbrev at : ℕ → Visit
at now = record { ip = "10.0.0.1"; now = now; later = now }

abbrev visits : List Visit
visits = at 120 ∷ at 121 ∷ at 150 ∷ at 179 ∷ []

decide-Tells_example : Tells login (at 150) 3 (decide login 3 (at 150))
decide-Tells_example = decide-Tells login (at 150) 3 (omega arith)
