-- ===== src/Safety/AuditQuery/Pages.antt =====
-- Reading the pages one after another (backend/app/safety/audit_query.py).
use nivara.Prelude.{
  ℕ, zero, suc, ◌+◌, ◌-◌, ◌*◌, ◌==◌, ◌≤◌, String, false, Option, none, some, List, [], ◌∷◌, ◌++◌,
  ◌≡◌, refl, ap, ◌∙◌, length, Bool, true, ◌&&◌, str_eq, eq_iff, if◌then◌else◌, arith,
}
use nivara.Safety.AuditQuery.{
  AuditLogPage, Entry, take, drop, is_owned, is_listed, where_true, page,
}

zero_plus : (k : ℕ) → 0 + k ≡ k
zero_plus k = omega arith

suc_plus : (m k : ℕ) → suc m + k ≡ suc (m + k)
suc_plus m k = omega arith

zero_times : (k : ℕ) → 0 * k ≡ 0
zero_times k = grind arith

suc_times : (n k : ℕ) → n * k + k ≡ suc n * k
suc_times n k = grind arith

suc_eq_zero : (n : ℕ) → (suc n == 0) ≡ false
suc_eq_zero n = ground arith

suc_minus : (n : ℕ) → suc n - 1 ≡ n
suc_minus n = omega arith

abbrev is_by : ℕ → Option ℕ → Bool
is_by user_id none = false
is_by user_id (some owner) = user_id == owner

module _ {D : Type 0} where
  -- The items of the pages from 1 on, so many of them.
  abbrev pub items_of : Option (AuditLogPage D) → List (Entry D)
  items_of none = []
  items_of (some p) = p.items

  abbrev pub read_pages :
      (List (Entry D) → List (Entry D))
      → ℕ
      → ℕ
      → Option String
      → List (Entry D)
      → ℕ
      → List (Entry D)
  read_pages order user_id per_page event_type rows zero = []
  read_pages order user_id per_page event_type rows (suc n) =
      read_pages order user_id per_page event_type rows n
      ++ items_of (page order user_id (suc n) per_page event_type rows)

  take-append :
      (m k : ℕ) (rows : List (Entry D)) → take m rows ++ take k (drop m rows) ≡ take (m + k) rows
  take-append zero k rows = rw (zero_plus k) refl
  take-append (suc m) zero [] = rw (suc_plus m 0) refl
  take-append (suc m) (suc k) [] = rw (suc_plus m (suc k)) refl
  take-append (suc m) k (e ∷ rows) = rw (suc_plus m k) (ap (λ r. e ∷ r) (take-append m k rows))

  take_all : (n : ℕ) (rows : List (Entry D)) → length rows ≤ n → take n rows ≡ rows
  take_all zero [] h = refl
  take_all zero (e ∷ rows) h = absurd (omega arith)
  take_all (suc n) [] h = refl
  take_all (suc n) (e ∷ rows) h = ap (λ r. e ∷ r) (take_all n rows (omega arith))

  items_of-page :
      (order : List (Entry D) → List (Entry D)) (user_id per_page : ℕ) (event_type : Option String)
      (rows : List (Entry D)) (n : ℕ)
      → items_of (page order user_id (suc n) per_page event_type rows)
        ≡ take per_page
            (drop (n * per_page) (order (where_true (is_listed user_id event_type) rows)))
  unfolding page
  items_of-page order user_id per_page event_type rows n = rw (suc_eq_zero n, suc_minus n) refl

  read_pages-take :
      (order : List (Entry D) → List (Entry D)) (user_id per_page : ℕ) (event_type : Option String)
      (rows : List (Entry D)) (n : ℕ)
      → read_pages order user_id per_page event_type rows n
        ≡ take (n * per_page) (order (where_true (is_listed user_id event_type) rows))
  read_pages-take order user_id per_page event_type rows zero = rw (zero_times per_page) refl
  read_pages-take order user_id per_page event_type rows (suc n) =
      rw
        (
          read_pages-take order user_id per_page event_type rows n,
          items_of-page order user_id per_page event_type rows n,
          take-append (n * per_page) per_page
              (order (where_true (is_listed user_id event_type) rows)),
          suc_times n per_page,
        )
        refl

  -- Whether a row is the user's, and of the event type if one is asked for.
  abbrev pub is_wanted : ℕ → Option String → Entry D → Bool
  is_wanted user_id none e = is_by user_id e.row.user_id
  is_wanted user_id (some event_type) e =
      if is_by user_id e.row.user_id then str_eq event_type e.row.event_type else false

  -- How often a test holds in a list of rows.
  abbrev pub count : (Entry D → Bool) → List (Entry D) → ℕ
  count test [] = 0
  count test (e ∷ rows) = (if test e then 1 else 0) + count test rows

  is_owned_lem : (user_id : ℕ) (e : Entry D) → is_owned user_id e ≡ is_by user_id e.row.user_id
  is_owned_lem user_id e = ground arith

  is_listed_lem :
      (user_id : ℕ) (event_type : Option String) (e : Entry D)
      → is_listed user_id event_type e ≡ is_wanted user_id event_type e
  is_listed_lem user_id none e = ground (arith, is_owned_lem user_id e)
  is_listed_lem user_id (some event_type) e = ground (
    arith,
    is_owned_lem user_id e,
    eq_iff event_type e.row.event_type,
    eq_iff e.row.event_type event_type,
  )

  length-count : (rows : List (Entry D)) → length rows ≡ count (λ e. true) rows
  length-count [] = refl
  length-count (e ∷ rows) = omega (arith, length-count rows)

  count_and_true :
      (test : Entry D → Bool) (rows : List (Entry D))
      → count (λ e. test e && true) rows ≡ count test rows
  count_and_true test [] = refl
  count_and_true test (e ∷ rows) = ground (arith, count_and_true test rows)

  count-where_true :
      (test : Entry D → Bool) (user_id : ℕ) (event_type : Option String) (rows : List (Entry D))
      → count test (where_true (is_listed user_id event_type) rows)
        ≡ count (λ e. is_wanted user_id event_type e && test e) rows
  count-where_true test user_id event_type [] = refl
  count-where_true test user_id event_type (e ∷ rows) =
      ground
        (arith, is_listed_lem user_id event_type e, count-where_true test user_id event_type rows)

  -- Where the database's order is a rearrangement that stays the same between the reads, the pages from
  -- 1 on, read until they hold as many rows as are listed, are together that order of the listed rows,
  -- and hold the user's rows (of the event type, if one is given) each as often as the table, and no
  -- other row: whatever test counts them.
  pub read_pages_complete :
      (order : List (Entry D) → List (Entry D)) (user_id per_page : ℕ) (event_type : Option String)
      (rows : List (Entry D)) (n : ℕ) (test : Entry D → Bool)
      → ((listed : List (Entry D)) (t : Entry D → Bool) → count t (order listed) ≡ count t listed)
      → count (is_wanted user_id event_type) rows ≤ n * per_page
      → let pages = read_pages order user_id per_page event_type rows n in
        (pages ≡ order (where_true (is_listed user_id event_type) rows))
        × (count test pages ≡ count (λ e. is_wanted user_id event_type e && test e) rows)
  read_pages_complete order user_id per_page event_type rows n test keeps enough =
      let listed = where_true (is_listed user_id event_type) rows in
      let size : length (order listed) ≤ n * per_page = omega (
        arith,
        length-count (order listed),
        keeps listed (λ e. true),
        count-where_true (λ e. true) user_id event_type rows,
        count_and_true (is_wanted user_id event_type) rows,
        enough,
      ) in
      let pages : read_pages order user_id per_page event_type rows n ≡ order listed =
        read_pages-take order user_id per_page event_type rows n
        ∙ take_all (n * per_page) (order listed) size in
      (pages, rw (pages, keeps listed test) (count-where_true test user_id event_type rows))
