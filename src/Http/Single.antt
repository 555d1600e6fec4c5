-- ===== src/Http/Single.antt =====
-- All requests of Arventiq act as one account.
use assessment_microservice.Base.{
  ℕ, ◌≡◌, ◌⊎◌, refl, sym, ap, subst, inl, inr, Bool, true, false, ◌||◌, none, some, List, [], ◌∷◌,
  arith, if◌then◌else◌, String, text_eq, Option-cases, Option,
}
use assessment_microservice.Store.{find, World, any, ok, Result, err, duplicate_key, Failure}
use assessment_microservice.Accounts.Register.{user_insert}
use assessment_microservice.Http.Service.{
  get_or_create_service_user_id, ServiceState, service_account_email, service_account, settle,
  find_or_create, Troubles, make_account, rejected,
}
use assessment_microservice.Models.{User}
use assessment_microservice.Accounts.Login.{user_by_email}
use assessment_microservice.Billing.Seats.{user_create}
use assessment_microservice.Accounts.Batch.{create_or_fail}

-- What the module remembers is the account of the collection.
abbrev pub Remembers : ServiceState → Type 0
Remembers s =
    (s.user_id ≡ none)
    ⊎ ((u : User) × (user_by_email service_account_email s.world ≡ some u)
        × (s.user_id ≡ some u.id))

abbrev restart : ServiceState → ServiceState
restart s = record s { user_id = none }

-- Every later call gives the id and changes nothing more, one after a restart too, if the database
-- answers its look-up.
abbrev pub Settled : ℕ → ServiceState → Type 0
Settled id s =
    (o : Troubles) (placeholder : String) (k : ℕ)
    → (get_or_create_service_user_id o placeholder k s ≡ (ok id, s))
      × (get_or_create_service_user_id (record o { lookup = none }) placeholder k (restart s)
          ≡ (ok id, s))

found-Settled :
    (u : User) (w : World)
    → user_by_email service_account_email w ≡ some u
    → Settled u.id (record { user_id = some u.id; world = w })
unfolding get_or_create_service_user_id
found-Settled u w h o placeholder k =
    (refl, ap (find_or_create (record o { lookup = none }) placeholder k w) h)

any-find : {A : Type 0} (p : A → Bool) (xs : List A) → find p xs ≡ none → any p xs ≡ false
any-find p [] h = refl
any-find p (x ∷ xs) h = go (p x) h (any-find p xs)
  where
    go :
        (b : Bool)
        → (if b then some x else find p xs) ≡ none
        → (find p xs ≡ none → any p xs ≡ false)
        → (if b then true else any p xs) ≡ false
    go true h k = absurd (ground arith)
    go false h k = k h

-- What a call on `s` has come to.
abbrev pub Ending : Troubles → ServiceState → Result ℕ × ServiceState → Type 0
Ending o s (ok id, t) =
    (u : User) × (u.id ≡ id)
    × (user_by_email service_account_email t.world ≡ some u)
    × Remembers t
    × Settled id t
Ending o s (err e, t) =
    (t ≡ s) × ((o.lookup ≡ some e) ⊎ ((o.hashing ≡ some e) ⊎ (o.creation ≡ some e)))

found-Ending :
    (o : Troubles) (s : ServiceState) (u : User) (w : World)
    → user_by_email service_account_email w ≡ some u
    → Ending o s (ok u.id, record { user_id = some u.id; world = w })
found-Ending o s u w h = (u, refl, h, inr (u, h, refl), found-Settled u w h)

-- Nothing is remembered, and the world is the same.
forgotten : (s : ServiceState) → s.user_id ≡ none → ◌≡◌ {A = ServiceState} (restart s) s
forgotten s e = λ i. record { user_id = sym e i; world = s.world }

create-Ending :
    (o : Troubles) (placeholder : String) (k : ℕ) (s : ServiceState)
    → s.user_id ≡ none
    → user_by_email service_account_email s.world ≡ none
    → (c : Option Failure) → o.creation ≡ c
    → Ending o s (settle (create_or_fail c (service_account placeholder k) s.world))
unfolding user_insert
create-Ending o placeholder k s e h (some x) f = (forgotten s e, inr (inr f))
create-Ending o placeholder k s e h none f =
    subst
      (λ c. Ending o s (
        settle (
          if c || false then (err duplicate_key, s.world) else (
            ok (service_account placeholder k),
            user_create (service_account placeholder k) s.world,
          ))))
      (sym (any-find (λ u. text_eq u.email service_account_email) s.world.users h))
      (found-Ending o s (service_account placeholder k)
        (user_create (service_account placeholder k) s.world) refl)

make-Ending :
    (o : Troubles) (placeholder : String) (k : ℕ) (s : ServiceState)
    → s.user_id ≡ none
    → user_by_email service_account_email s.world ≡ none
    → Ending o s (make_account o placeholder k s.world)
make-Ending o placeholder k s e h = hashed o.hashing refl
  where
    hashed :
        (c : Option Failure)
        → o.hashing ≡ c
        → Ending o s (elim c [
          | some x ↦ rejected x s.world
          | none ↦ settle (create_or_fail o.creation (service_account placeholder k) s.world)
        ])
    hashed (some x) f = (forgotten s e, inr (inl f))
    hashed none f = create-Ending o placeholder k s e h o.creation refl

find-Ending :
    (o : Troubles) (placeholder : String) (k : ℕ) (s : ServiceState)
    → s.user_id ≡ none
    → (found : Option User) → user_by_email service_account_email s.world ≡ found
    → Ending o s (find_or_create o placeholder k s.world found)
find-Ending o placeholder k s e (some u) h = found-Ending o s u s.world h
find-Ending o placeholder k s e none h = make-Ending o placeholder k s e h

-- If the module remembers nothing, as when it has started, or the id of the account that has
-- Arventiq's email, which holds until a restored backup replaces the users, then a call has one of two
-- endings. It gives the id of the account with that email, which is then remembered, and every later
-- call gives the same id and makes no other account. Or it raises what the look-up, the hashing or
-- the creation raised, and leaves all as it was, so that the next request tries again.
pub get_or_create_service_user_id-Ending :
    (o : Troubles) (placeholder : String) (k : ℕ) (s : ServiceState)
    → Remembers s
    → Ending o s (get_or_create_service_user_id o placeholder k s)
unfolding get_or_create_service_user_id
get_or_create_service_user_id-Ending o placeholder k s (inr (u, found, e)) =
    subst (λ t. Ending o s (get_or_create_service_user_id o placeholder k t)) known
      (found-Ending o s u s.world found)
  where
    known : ◌≡◌ {A = ServiceState} (record { user_id = some u.id; world = s.world }) s
    known = λ i. record { user_id = sym e i; world = s.world }
get_or_create_service_user_id-Ending o placeholder k s (inl e) =
    subst (λ t. Ending o s (get_or_create_service_user_id o placeholder k t)) (forgotten s e)
      (elim (Option-cases o.lookup) [
        | inr (x, f) ↦ rw f (forgotten s e, inl f)
        | inl f ↦
            rw f
              (find-Ending o placeholder k s e (user_by_email service_account_email s.world) refl)
      ])
