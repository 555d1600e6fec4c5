-- ===== src/Shim/Tests.antt =====
-- The theorems about runs at a program that is killed for its memory.
use assessment_microservice.Base.{true, false, none, some, ◌≡◌, ◌↔◌, String}
use assessment_microservice.Shim.Run.{
  RawRequest, Raw, run_raw_code_assess, replied, map_language_id,
}
use assessment_microservice.Shim.Status.{Clean, run_raw_code_assess-accepted_iff}

abbrev killed : Raw
killed = record {
  stdout = none;
  stderr = none;
  compile_output = none;
  compile_error = false;
  timed_out = false;
  oom_killed = true;
  error = none;
  exit_code = none;
  time_ms = some 40;
}

abbrev request : RawRequest
request = record {
  language_id = 71;
  source_code = "x = [0] * 10 ** 9";
  stdin = none;
  wall_time_limit_ms = none;
  memory_limit_kb = some 1500;
}

run_raw_code_assess-accepted_iff_example :
    ((run_raw_code_assess (λ run. replied killed) request).status ≡ 3) ↔ (
      (language : String) × (raw : Raw) × (map_language_id 71 ≡ some language)
      × (replied killed ≡ replied raw)
      × Clean raw)
run_raw_code_assess-accepted_iff_example =
    run_raw_code_assess-accepted_iff (λ run. replied killed) request
