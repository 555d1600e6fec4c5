-- ===== src/System/Settings.antt =====
-- `getSetting` after `setSetting`, and the index on `key`.
use assessment_microservice.Base.{
  ◌≡◌, ◌≢◌, refl, sym, ap, ◌∙◌, Bool, true, false, some, List, [], ◌∷◌, arith, if◌then◌else◌,
  String, text_eq, text_eq_iff,
}
use assessment_microservice.System.{
  Setting, set_setting, find_setting, SettingValue, get_setting, or_default,
}

-- The keys of the settings, each once: the unique index of the collection.
abbrev pub Fresh : String → List Setting → Type 0
Fresh key [] = Unit {0}
Fresh key (s ∷ ss) = (s.key ≢ key) × Fresh key ss

abbrev pub Keyed : List Setting → Type 0
Keyed [] = Unit {0}
Keyed (s ∷ ss) = Fresh s.key ss × Keyed ss

Fresh-set :
    (k key : String) (value : SettingValue) (ss : List Setting)
    → Fresh k ss
    → key ≢ k
    → Fresh k (set_setting key value ss)
unfolding set_setting
Fresh-set k key value [] h n = (n, tt)
Fresh-set k key value (s ∷ ss) h n =
    either_way (text_eq s.key key) _ _ h (h.0, Fresh-set k key value ss h.1 n)
  where
    either_way :
        (b : Bool) (xs ys : List Setting) → Fresh k xs → Fresh k ys → Fresh k (if b then xs else ys)
    either_way true xs ys p q = p
    either_way false xs ys p q = q

set_setting-Keyed :
    (key : String) (value : SettingValue) (ss : List Setting)
    → Keyed ss
    → Keyed (set_setting key value ss)
unfolding set_setting
set_setting-Keyed key value [] h = (tt, tt)
set_setting-Keyed key value (s ∷ ss) h =
    pick (text_eq s.key key) refl (set_setting-Keyed key value ss h.1)
  where
    new : (text_eq s.key key ≡ false) → key ≢ s.key
    new e p = absurd (ground (arith, (text_eq_iff s.key key).1 (sym p)))

    pick :
        (b : Bool)
        → text_eq s.key key ≡ b
        → Keyed (set_setting key value ss)
        → Keyed (if b then record s { value = value } ∷ ss else s ∷ set_setting key value ss)
    pick true e rest = h
    pick false e rest = (Fresh-set s.key key value ss h.0 (new e), rest)

find_setting-set :
    (k key : String) (value : SettingValue) (ss : List Setting)
    → find_setting k (set_setting key value ss)
      ≡ (if text_eq key k then some value else find_setting k ss)
unfolding set_setting find_setting
find_setting-set k key value [] = refl
find_setting-set k key value (s ∷ ss) = ground (
  arith,
  text_eq_iff s.key key,
  text_eq_iff s.key k,
  text_eq_iff key k,
  find_setting-set k key value ss,
)

-- After a setting is set, reading its key gives the new value and every other key reads as before,
-- and no key is there twice if none was.
pub get_setting-set_setting :
    (k key : String) (value default_value : SettingValue) (ss : List Setting)
    → Keyed ss
    → (get_setting k default_value (set_setting key value ss)
        ≡ (if text_eq key k then value else get_setting k default_value ss))
      × Keyed (set_setting key value ss)
unfolding get_setting
get_setting-set_setting k key value default_value ss h = (
  ap (λ o. or_default o default_value) (find_setting-set k key value ss) ∙ pick (text_eq key k),
  set_setting-Keyed key value ss h,
)
  where
    pick :
        (b : Bool)
        → or_default (if b then some value else find_setting k ss) default_value
          ≡ (if b then value else or_default (find_setting k ss) default_value)
    pick true = refl
    pick false = refl
