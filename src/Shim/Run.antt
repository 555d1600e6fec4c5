-- ===== src/Shim/Run.antt =====
-- `mapLanguageId` and `runRawCodeAssess`. The judge's HTTP endpoint is an argument. The time limit of
-- a request is taken in milliseconds and a duration is left in them; a message is kept with its kind,
-- as it is before it is cut to 300 characters.
use assessment_microservice.Base.{
  ℕ, zero, suc, ◌+◌, ◌*◌, Bool, true, false, Option, none, some, ◌==◌, if◌then◌else◌, String, max,
  ◌/◌,
}
use assessment_microservice.Store.{is_some, or_default}
use assessment_microservice.Base.Int.{ℤ, pos}
use assessment_microservice.Arventiq.Verdict.{text_or_null}

unfoldable pub map_language_id : ℕ → Option String
map_language_id n =
    if n == 71
    then some "python"
    else if n == 63
    then some "javascript"
    else if n == 74
    then some "typescript"
    else if n == 62
    then some "java"
    else if n == 50
    then some "c"
    else if n == 54
    then some "cpp"
    else if n == 60
    then some "go"
    else if n == 73
    then some "rust"
    else if n == 72
    then some "ruby"
    else if n == 68
    then some "php"
    else if n == 78
    then some "kotlin"
    else if n == 51
    then some "csharp"
    else none

pub record RawRequest : Type 0 where
  pub language_id : ℕ
  pub source_code : String
  pub stdin : Option String
  pub wall_time_limit_ms : Option ℕ
  pub memory_limit_kb : Option ℕ

-- The body that is posted to the judge.
pub record RawRun : Type 0 where
  pub language : String
  pub code : String
  pub stdin : String
  pub timeout_ms : ℕ
  pub memory_limit_mb : ℕ

-- The judge's JSON: each key may be missing.
pub record Raw : Type 0 where
  pub stdout : Option String
  pub stderr : Option String
  pub compile_output : Option String
  pub compile_error : Bool
  pub timed_out : Bool
  pub oom_killed : Bool
  pub error : Option String
  pub exit_code : Option ℤ
  pub time_ms : Option ℕ

pub data Backend : Type 0 where
  unreachable : String → Backend
  not_ok : ℕ → String → Backend
  replied : Raw → Backend

pub data Message : Type 0 where
  plain_text : String → Message
  unsupported : ℕ → Message
  backend_status : ℕ → String → Message
  backend_unreachable : String → Message
  internal : String → Message

pub record Response : Type 0 where
  pub stdout : String
  pub stderr : Message
  pub compile_output : String
  pub status : ℕ
  pub time_ms : ℕ
  pub memory : ℕ
  pub exit_code : Option ℤ

-- The answer when nothing ran: status 13 is an internal error.
abbrev pub nothing_ran : Message → Response
nothing_ran message = record {
  stdout = "";
  stderr = message;
  compile_output = "";
  status = 13;
  time_ms = 0;
  memory = 0;
  exit_code = none;
}

-- Number(x) || d
abbrev pub number_or : Option ℕ → ℕ → ℕ
number_or none d = d
number_or (some zero) d = d
number_or (some (suc n)) d = suc n

-- Math.max(1, Math.round((Number(memoryLimitKb) || 262144) / 1024))
unfoldable pub limit_mb : Option ℕ → ℕ
limit_mb kb = max 1 ((number_or kb 262144 + 512) / 1024)

-- raw.exitCode && raw.exitCode !== 0
abbrev pub is_failure_code : Option ℤ → Bool
is_failure_code none = false
is_failure_code (some (pos zero)) = false
is_failure_code (some _) = true

-- The status and the memory of a reply, in the order of the code's tests.
unfoldable pub classify : ℕ → Raw → ℕ × ℕ
classify memory_limit_mb raw =
    if raw.compile_error
    then (6, 0)
    else if raw.timed_out
    then (5, 0)
    else if raw.oom_killed
    then (11, memory_limit_mb * 1024)
    else if is_some (text_or_null raw.error)
    then (13, 0)
    else if is_failure_code raw.exit_code
    then (11, 0)
    else (3, 0)

-- raw.stderr || (raw.error ? … : "")
abbrev pub stderr_of : Option String → Option String → Message
stderr_of (some e) none = plain_text e
stderr_of (some e) (some x) = plain_text e
stderr_of none none = plain_text ""
stderr_of none (some x) = internal x

abbrev pub response_of : ℕ → Raw → Response
response_of memory_limit_mb raw =
    let (status, memory) = classify memory_limit_mb raw in
    record {
      stdout = or_default raw.stdout "";
      stderr = stderr_of (text_or_null raw.stderr) (text_or_null raw.error);
      compile_output = or_default raw.compile_output "";
      status = status;
      time_ms = or_default raw.time_ms 0;
      memory = memory;
      exit_code = raw.exit_code;
    }

abbrev pub raw_run : String → RawRequest → RawRun
raw_run language r = record {
  language = language;
  code = r.source_code;
  stdin = or_default r.stdin "";
  timeout_ms = number_or r.wall_time_limit_ms 10000;
  memory_limit_mb = limit_mb r.memory_limit_kb;
}

abbrev pub response_to : ℕ → Backend → Response
response_to memory_limit_mb (unreachable e) = nothing_ran (backend_unreachable e)
response_to memory_limit_mb (not_ok status t) = nothing_ran (backend_status status t)
response_to memory_limit_mb (replied raw) = response_of memory_limit_mb raw

unfoldable pub run_raw_code_assess : (RawRun → Backend) → RawRequest → Response
run_raw_code_assess judge r = elim (map_language_id r.language_id) [
  | none ↦ nothing_ran (unsupported r.language_id)
  | some language ↦ response_to (limit_mb r.memory_limit_kb) (judge (raw_run language r))
]
