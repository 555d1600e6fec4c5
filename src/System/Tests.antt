-- ===== src/System/Tests.antt =====
-- Runs of the settings and of a restoration.
use assessment_microservice.Base.{◌≡◌, refl, true, false, none, some, List, [], ◌∷◌}
use assessment_microservice.System.{
  Database, get_setting, get_incident_banner, export_database, Setting, InsertMany, import_database,
  SettingValue, find_setting, banner, other_value, update_incident_banner, restored, set_setting,
}
use assessment_microservice.Samples.{world}
use assessment_microservice.System.Settings.{Keyed, get_setting-set_setting}
use assessment_microservice.System.Restore.{all_counts, restored_into, import_database-export}

abbrev settings : List Setting
settings = record { key = "theme"; value = other_value "dark" } ∷ []

abbrev shown_banner : SettingValue
shown_banner = banner true "Maintenance" "info"

banner_default : get_incident_banner settings ≡ banner false "" "info"
unfolding get_incident_banner get_setting find_setting
banner_default = refl

banner_set :
    get_incident_banner (update_incident_banner (some true) (some "Maintenance") none settings)
    ≡ shown_banner
unfolding get_incident_banner update_incident_banner get_setting set_setting find_setting
banner_set = refl

get_setting-set_setting_example :
    (get_setting "theme" shown_banner (set_setting "incident_banner" shown_banner settings)
      ≡ other_value "dark")
    × Keyed (set_setting "incident_banner" shown_banner settings)
unfolding get_setting find_setting
get_setting-set_setting_example =
    get_setting-set_setting "theme" "incident_banner" shown_banner shown_banner settings (tt, tt)

abbrev stores_all : InsertMany
stores_all name A docs = (docs, none)

abbrev before : Database
before = record { world = world; questions = []; settings = settings }

abbrev empty : Database
empty = record {
  world = record {
    users = [];
    colleges = [];
    problems = [];
    assessments = [];
    attempts = [];
    submissions = [];
    usage_events = [];
    audit_logs = [];
    queue = [];
    cache = [];
  };
  questions = [];
  settings = [];
}

import_database-export_example :
    import_database stores_all (some (export_database before)) empty
    ≡ (restored (all_counts before), restored_into before empty)
import_database-export_example =
    import_database-export stores_all (λ name A docs. refl) before empty
