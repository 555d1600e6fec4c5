-- ===== src/Submissions/Outcome.antt =====
-- How `submitSolution` ends.
use assessment_microservice.Store.{
  ◌>>=◌, ◌>>=◌, ◌>>=◌, ◌>>=◌, ◌>>=◌, ◌>>=◌, ◌>>=◌, ◌>>=◌, ◌>>=◌, ◌>>=◌, ◌>>=◌, ◌>>=◌, ◌>>=◌, ◌>>=◌,
  ◌>>=◌, ◌>>=◌, ◌>>=◌, ◌>>=◌, ◌>>=◌, ◌>>=◌, ◌>>=◌, ◌>>=◌, ◌>>=◌, ◌>>=◌, ◌>>=◌, ◌>>=◌, ◌>>=◌, ◌>>=◌,
  ◌>>=◌, ◌>>=◌, ◌>>=◌, ◌>>=◌, ◌>>=◌, ◌>>=◌, ◌>>=◌, ◌>>=◌, ◌>>=◌, ◌>>=◌, ◌>>=◌, ◌>>=◌, ◌>>=◌, ◌>>=◌,
  ◌>>=◌, ◌>>=◌, ◌>>=◌, ◌>>=◌, ◌>>=◌, ◌>>=◌, ◌>>=◌, ◌>>=◌, ◌>>=◌, ◌>>=◌, ◌>>=◌, ◌>>=◌, ◌>>=◌, ◌>>=◌,
  ◌>>=◌, ◌>>=◌, ◌>>=◌, ◌>>=◌, ◌>>=◌, ◌>>=◌, ◌>>=◌, ◌>>=◌, ◌>>=◌, ◌>>=◌, ◌>>=◌, ◌>>=◌, ◌>>=◌, ◌>>=◌,
  ◌>>=◌, ◌>>=◌, ◌>>=◌, ◌>>=◌, ◌>>=◌, ◌>>=◌, ◌>>=◌, ◌>>=◌, ◌>>=◌, ◌>>=◌,
}
