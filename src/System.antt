-- ===== src/System.antt =====
-- assessment-api/src/services/system.service.js: the settings, the incident banner, and the backup of
-- the database with its restoration. The backup has eight of the collections: not the colleges and
-- not the usage events. `insertMany` is the database's: an argument gives what it has stored of the
-- documents, and what it raised.
pub mod Restore
pub mod Settings
mod Tests
use assessment_microservice.Base.{
  ℕ, zero, suc, ◌+◌, ◌-◌, ◌*◌, ◌≤◌, ◌<◌, ◌≡◌, ◌≢◌, ◌↔◌, ◌⊎◌, refl, sym, ap, subst, ◌∙◌, inl, inr,
  Bool, true, false, not, ◌&&◌, ◌||◌, Option, none, some, List, [], ◌∷◌, ◌++◌, map, arith, ◌==◌,
  ==_iff, ltb, leb, if◌then◌else◌, String, text_eq, Bool-cases, Option-cases, length,
}
use assessment_microservice.Models.{Attempt, AuditLog, Assessment, Problem, User, Submission}
use assessment_microservice.Questions.{Bank}
use assessment_microservice.Store.{Failure, World, or_default}

-- SystemSettings.value: the banner, or any other JSON value
pub data SettingValue : Type 0 where
  banner : Bool → String → String → SettingValue
  other_value : String → SettingValue

pub record Setting : Type 0 where
  pub key : String
  pub value : SettingValue

-- The database of the service: what the other services share, the question bank, the settings.
pub record Database : Type 0 where
  pub world : World
  pub questions : Bank
  pub settings : List Setting

unfoldable pub find_setting : String → List Setting → Option SettingValue
find_setting key [] = none
find_setting key (s ∷ ss) = if text_eq s.key key then some s.value else find_setting key ss

unfoldable pub get_setting : String → SettingValue → List Setting → SettingValue
unfolding find_setting
get_setting key default_value settings = or_default (find_setting key settings) default_value

-- `findOneAndUpdate` with `upsert`
unfoldable pub set_setting : String → SettingValue → List Setting → List Setting
set_setting key value [] = record { key = key; value = value } ∷ []
set_setting key value (s ∷ ss) =
    if text_eq s.key key then record s { value = value } ∷ ss else s ∷ set_setting key value ss

unfoldable pub get_incident_banner : List Setting → SettingValue
get_incident_banner settings = get_setting "incident_banner" (banner false "" "info") settings

-- `x || d` on texts
abbrev or_text : Option String → String → String
or_text none d = d
or_text (some s) d = if text_eq s "" then d else s

abbrev pub requested_banner : Option Bool → Option String → Option String → SettingValue
requested_banner active message kind =
    banner (or_default active false) (or_text message "") (or_text kind "info")

unfoldable pub update_incident_banner :
    Option Bool → Option String → Option String → List Setting → List Setting
update_incident_banner active message kind settings =
    set_setting "incident_banner" (requested_banner active message kind) settings

-- The names of the eight collections.
pub data Collection : Type 0 where
  users problems questions assessments assessment_attempts submissions audit_logs : Collection
  system_settings : Collection

-- A backup: for each collection an array of documents, or a key that is missing or no array.
pub record Backup : Type 0 where
  pub users : Option (List User)
  pub problems : Option (List Problem)
  pub questions : Option Bank
  pub assessments : Option (List Assessment)
  pub attempts : Option (List Attempt)
  pub submissions : Option (List Submission)
  pub audit_logs : Option (List AuditLog)
  pub settings : Option (List Setting)

unfoldable pub export_database : Database → Backup
export_database d = record {
  users = some d.world.users;
  problems = some d.world.problems;
  questions = some d.questions;
  assessments = some d.world.assessments;
  attempts = some d.world.attempts;
  submissions = some d.world.submissions;
  audit_logs = some d.world.audit_logs;
  settings = some d.settings;
}

-- What `insertMany` has stored of the documents, and what it raised.
abbrev pub InsertMany : Type 1
InsertMany = Collection → (A : Type 0) → List A → List A × Option Failure

-- The sizes that the answer lists.
abbrev pub Counts : Type 0
Counts = List (Collection × ℕ)

-- The answer, or the plain error for a backup of a wrong format, or what `insertMany` raised.
pub data RestoreOutcome : Type 0 where
  restored : Counts → RestoreOutcome
  bad_format : RestoreOutcome
  insert_failed : Failure → RestoreOutcome

-- The answer so far, and the database; a failure ends the restoration.
abbrev pub Restoring : Type 0
Restoring = RestoreOutcome × Database

-- The documents that the collection has after `deleteMany` and `insertMany`.
unfoldable pub replaced : {A : Type 0} → InsertMany → Collection → List A → List A × Option Failure
replaced {A} insert_many name [] = ([], none)
replaced {A} insert_many name (x ∷ xs) = insert_many name A (x ∷ xs)

abbrev pub counted : {A : Type 0} → Collection → List A → Option Failure → Counts → RestoreOutcome
counted name docs none counts = restored (counts ++ ((name, length docs) ∷ []))
counted name docs (some e) counts = insert_failed e

-- One turn of the loop; `write` puts a collection into the database.
abbrev pub restore_collection :
    InsertMany
    → Collection
    → {A : Type 0} → (List A → Database → Database)
    → Option (List A)
    → Restoring
    → Restoring
restore_collection insert_many name write docs (bad_format, d) = (bad_format, d)
restore_collection insert_many name write docs (insert_failed e, d) = (insert_failed e, d)
restore_collection insert_many name write none (restored counts, d) = (restored counts, d)
restore_collection insert_many name write (some docs) (restored counts, d) =
    let (stored, raised) = replaced insert_many name docs in
    (counted name docs raised counts, write stored d)

abbrev pub write_users : List User → Database → Database
write_users docs d = record d { world = record d.world { users = docs } }

abbrev pub write_problems : List Problem → Database → Database
write_problems docs d = record d { world = record d.world { problems = docs } }

abbrev pub write_questions : Bank → Database → Database
write_questions docs d = record d { questions = docs }

abbrev pub write_assessments : List Assessment → Database → Database
write_assessments docs d = record d { world = record d.world { assessments = docs } }

abbrev pub write_attempts : List Attempt → Database → Database
write_attempts docs d = record d { world = record d.world { attempts = docs } }

abbrev pub write_submissions : List Submission → Database → Database
write_submissions docs d = record d { world = record d.world { submissions = docs } }

abbrev pub write_audit_logs : List AuditLog → Database → Database
write_audit_logs docs d = record d { world = record d.world { audit_logs = docs } }

abbrev pub write_settings : List Setting → Database → Database
write_settings docs d = record d { settings = docs }

-- The loop over `supportedCollections`.
unfoldable pub restore_all : InsertMany → Backup → Restoring → Restoring
restore_all insert_many backup r =
    let r = restore_collection insert_many users write_users backup.users r in
    let r = restore_collection insert_many problems write_problems backup.problems r in
    let r = restore_collection insert_many questions write_questions backup.questions r in
    let r = restore_collection insert_many assessments write_assessments backup.assessments r in
    let r = restore_collection insert_many assessment_attempts write_attempts backup.attempts r in
    let r = restore_collection insert_many submissions write_submissions backup.submissions r in
    let r = restore_collection insert_many audit_logs write_audit_logs backup.audit_logs r in
    restore_collection insert_many system_settings write_settings backup.settings r

-- A backup that is no object is `none`.
unfoldable pub import_database : InsertMany → Option Backup → Database → Restoring
import_database insert_many none d = (bad_format, d)
import_database insert_many (some backup) d = restore_all insert_many backup (restored [], d)
