-- ===== src/System/Restore.antt =====
-- What a restoration leaves in the database.
use assessment_microservice.Base.{◌≡◌, refl, none, some, List, [], ◌∷◌, length}
use assessment_microservice.System.{
  Database, replaced, InsertMany, import_database, restore_all, Collection, export_database, Counts,
  users, restored, problems, questions, assessments, assessment_attempts, submissions, audit_logs,
  system_settings,
}

-- `insertMany` stores all that it is given and raises nothing.
abbrev pub Stores : InsertMany → Type 1
Stores insert_many =
    (name : Collection) (A : Type 0) (docs : List A) → insert_many name A docs ≡ (docs, none)

replaced_ok :
    {A : Type 0} (insert_many : InsertMany)
    → Stores insert_many
    → (name : Collection) (docs : List A) → replaced insert_many name docs ≡ (docs, none)
unfolding replaced
replaced_ok {A} insert_many law name [] = refl
replaced_ok {A} insert_many law name (x ∷ docs) = law name A (x ∷ docs)

-- The eight collections of one database within another.
abbrev pub restored_into : Database → Database → Database
restored_into d e = record {
  world = record d.world {
    colleges = e.world.colleges;
    usage_events = e.world.usage_events;
    queue = e.world.queue;
    cache = e.world.cache;
  };
  questions = d.questions;
  settings = d.settings;
}

abbrev pub all_counts : Database → Counts
all_counts d =
    (users, length d.world.users)
    ∷ (problems, length d.world.problems)
    ∷ (questions, length d.questions)
    ∷ (assessments, length d.world.assessments)
    ∷ (assessment_attempts, length d.world.attempts)
    ∷ (submissions, length d.world.submissions)
    ∷ (audit_logs, length d.world.audit_logs)
    ∷ (system_settings, length d.settings)
    ∷ []

-- Where `insertMany` stores what it is given, a backup of one database restored into another succeeds,
-- lists the number of documents of each of the eight collections, and makes those collections the
-- backup's; the colleges, the usage events, the queue and the cache stay those of the other.
pub import_database-export :
    (insert_many : InsertMany)
    → Stores insert_many
    → (d e : Database)
    → import_database insert_many (some (export_database d)) e
      ≡ (restored (all_counts d), restored_into d e)
unfolding import_database export_database restore_all
import_database-export insert_many law d e = simp (replaced_ok insert_many law)
