-- ===== src/Auth/Users.antt =====
-- The users table (backend/app/models/users.py) as the list of its rows, and the queries that the
-- auth service makes. An id and an email are unique, so a query has one row at most.
use nivara.Prelude.{
  ℕ, String, Bool, true, Option, none, some, List, [], ◌∷◌, ◌≡◌, arith, ◌==◌, str_eq, is_some,
  if◌then◌else◌,
}

-- The id stands for a UUID, which is only compared.
pub record User (Hash : Type 0) : Type 0 where
  pub id : ℕ
  pub email : String
  pub password_hash : Hash
  pub full_name : Option String
  pub locale : String
  pub is_active : Bool

module _ {Hash : Type 0} where
  -- `session.get(User, user_id)`
  unfoldable pub get_user : ℕ → List (User Hash) → Option (User Hash)
  get_user id [] = none
  get_user id (u ∷ us) = if u.id == id then some u else get_user id us

  -- `select(User).where(User.email == email)`
  unfoldable pub find_email : String → List (User Hash) → Option (User Hash)
  find_email email [] = none
  find_email email (u ∷ us) = if str_eq u.email email then some u else find_email email us

  -- The row of the same id, written back at a commit.
  unfoldable pub save_user : User Hash → List (User Hash) → List (User Hash)
  save_user v [] = []
  save_user v (u ∷ us) = if u.id == v.id then v ∷ us else u ∷ save_user v us

  -- `if user is None or not user.is_active`, as the active user that is left.
  abbrev pub active_user : Option (User Hash) → Option (User Hash)
  active_user none = none
  active_user (some u) = if u.is_active then some u else none

  pub get_user-save_user :
      (v : User Hash) (us : List (User Hash))
      → is_some (get_user v.id us) ≡ true
      → get_user v.id (save_user v us) ≡ some v
  unfolding get_user save_user
  get_user-save_user v [] h = cc
  get_user-save_user v (u ∷ us) h = ground (arith, get_user-save_user v us)

  find_email_match :
      (email : String) (u : User Hash) (us : List (User Hash))
      → find_email email us ≡ some u
      → str_eq u.email email ≡ true
  unfolding find_email
  find_email_match email u [] h = cc
  find_email_match email u (w ∷ us) h = ground (arith, find_email_match email u us)

  -- A row that keeps its email is found by that email in its new form.
  pub find_email-save_user :
      (u v : User Hash) (email : String) (us : List (User Hash))
      → find_email email us ≡ some u
      → get_user u.id us ≡ some u
      → v.id ≡ u.id
      → v.email ≡ u.email
      → find_email email (save_user v us) ≡ some v
  unfolding find_email save_user get_user
  find_email-save_user u v email [] found own same_id same_email = cc
  find_email-save_user u v email (w ∷ us) found own same_id same_email =
      ground (arith, find_email_match email u (w ∷ us) found, find_email-save_user u v email us)

  get_user_id :
      (id : ℕ) (u : User Hash) (us : List (User Hash)) → get_user id us ≡ some u → u.id ≡ id
  unfolding get_user
  get_user_id id u [] h = cc
  get_user_id id u (w ∷ us) h = ground (arith, get_user_id id u us)

  -- The active user of an id has that id.
  pub active_user_id :
      (id : ℕ) (u : User Hash) (us : List (User Hash))
      → active_user (get_user id us) ≡ some u
      → (get_user id us ≡ some u) × (u.id ≡ id)
  active_user_id id u us h = (ground arith, ground (arith, get_user_id id u us))
