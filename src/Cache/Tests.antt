-- ===== src/Cache/Tests.antt =====
-- The theorems on the cache at concrete inputs.
use student_system_go.Common.{◌≡◌, refl, String, true, some}
use student_system_go.Common.Text.{has_prefix}
use student_system_go.Go.{ok}
use student_system_go.Cache.{Codec, Client, get_or_fetch}
use student_system_go.Cache.Coherent.{Answers, is_plain, get_or_fetch-Answers}
use student_system_go.Cache.Memory.{one_slot, one_slot-IsRedis}

-- A value of two texts, the second of which is not in the JSON.
abbrev half_codec : Codec (String × String)
half_codec = record {
  marshal = λ v. ok v.0;
  unmarshal = λ t v. (ok tt, (t, v.1));
  zero_value = ("", "");
}

abbrev client : Client one_slot
client = record { ready = true; store = some ("cache:execs:list:", "[]") }

get_or_fetch-Answers_example :
    Answers one_slot-IsRedis half_codec "cache:execs:list:"
      (ok ("[]", ""))
      (get_or_fetch one_slot half_codec "cache:execs:list:" (ok ("[]", "photos/execs/1")) client)
get_or_fetch-Answers_example =
    get_or_fetch-Answers one_slot-IsRedis half_codec "cache:execs:list:"
      (ok ("[]", "photos/execs/1")) (ok ("[]", "")) client ("[]", ("[]", ""), refl, refl, refl)
      (("[]", ""), refl, refl)

plain : is_plain "cache:execs:list:" ≡ true
unfolding is_plain
plain = refl

inside : has_prefix "cache:execs:list:" "cache:execs:list:" ≡ true
unfolding has_prefix
inside = refl
