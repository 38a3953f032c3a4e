-- ===== src/Rosa/Submitting/Claims.antt =====
-- What `Store::add_attachment` of crates/collecta-server/src/store.rs keeps: the claim of an instance
-- id and the names of the stored attachments.
use collecta.Prelude.{
  String, Bool, true, none, some, List, [], ◌∷◌, ◌++◌, ◌≡◌, ◌⊎◌, refl, sym, ap, map, keep, find,
  any, modify_first, any-append, str_eq, eq_refl, ==_self, Bool-cases, Option-cases, inl, inr,
  arith, some_inj, ◌==◌,
}
use collecta.Values.{Uuid}
use collecta.Server.{Db, SubmissionRow, AttachmentRow}
use collecta.Server.SubmissionTable.{StoredInstance, find_instance, is_instance}
use collecta.Server.AttachmentTable.{attach, add_attachment, list_attachments, attached_filenames}
use collecta.Server.Instances.{or-true}

module _ {A : Type 0} (p q : A → Bool) (f : A → A) where
  -- A change that the test does not see: what is found is the old element or the changed one.
  find-modify_first :
      (xs : List A) (x : A)
      → ((y : A) → p (f y) ≡ p y)
      → find p xs ≡ some x
      → (y : A) × (find p (modify_first q f xs) ≡ some y) × ((y ≡ x) ⊎ (y ≡ f x))
  find-modify_first [] x same h = cc
  find-modify_first (z ∷ xs) x same h = elim (Bool-cases (p z)) [
    | inl e ↦
        let found : some z ≡ some x = rw e at h in
        elim (Bool-cases (q z)) [
          | inl c ↦ (f z, rw (c, same z, e), inr (ap f (some_inj found)))
          | inr c ↦ (z, rw (c, e), inl (some_inj found))
        ]
    | inr e ↦ elim (Bool-cases (q z)) [
      | inl c ↦
          (x, (let later : find p xs ≡ some x = rw e at h in rw (c, same z, e) later), inl refl)
      | inr c ↦
          let later = find-modify_first xs x same (rw e at h) in
          (later.0, rw (c, e) (later.1), later.2)
    ]
  ]

-- The instance id is claimed by a submission with these bytes, of this account, under this id.
abbrev pub Claimed : (form_id : Uuid) (instance_id hash user : String) (id : Uuid) → Db → Type 0
Claimed form_id instance_id hash user id db =
    (stored : StoredInstance) × (find_instance form_id instance_id db ≡ some stored)
    × (stored.instance_hash ≡ hash)
    × (stored.submission.collector_id ≡ some user)
    × (stored.submission.id ≡ id)

-- An attachment with this name is stored for the submission.
abbrev pub Holds : Uuid → String → Db → Type 0
Holds id name db = any (λ known. str_eq known name) (attached_filenames id db) ≡ true

find_instance-row :
    (form_id : Uuid) (instance_id : String) (db : Db) (stored : StoredInstance)
    → find_instance form_id instance_id db ≡ some stored
    → (row : SubmissionRow) × (find (is_instance form_id instance_id) db.submissions ≡ some row)
      × (stored ≡ record { submission = row.submission; instance_hash = row.instance_hash })
unfolding find_instance
find_instance-row form_id instance_id db stored h =
    elim (Option-cases (find (is_instance form_id instance_id) db.submissions)) [
      | inl n ↦ let none_some : none ≡ some stored = rw n at h in cc
      | inr (row, e) ↦ (row, e, sym (some_inj (rw e at h)))
    ]

pub Claimed-add_attachment :
    (a : AttachmentRow) (form_id : Uuid) (instance_id hash user : String) (id : Uuid) (db : Db)
    → Claimed form_id instance_id hash user id db
    → Claimed form_id instance_id hash user id (add_attachment a db)
unfolding find_instance add_attachment
Claimed-add_attachment a form_id instance_id hash user id db (stored, f, h, c, i) =
    let (row, e, s) = find_instance-row form_id instance_id db stored f in
    let (after, g, alike) =
      find-modify_first (is_instance form_id instance_id) (λ r. r.id == a.submission_id) (attach a)
        db.submissions row (λ y. refl) e in
    (
      record { submission = after.submission; instance_hash = after.instance_hash },
      rw g,
      elim alike [ inl q ↦ cc | inr q ↦ cc ],
      elim alike [ inl q ↦ cc | inr q ↦ cc ],
      elim alike [ inl q ↦ cc | inr q ↦ cc ],
    )

keep-append_one :
    (a : AttachmentRow) (id : Uuid) (rows : List AttachmentRow)
    → a.submission_id ≡ id
    → map (λ (r : AttachmentRow). r.filename) (keep (λ r. r.submission_id == id) (rows ++ (a ∷ [])))
      ≡ map (λ (r : AttachmentRow). r.filename) (keep (λ r. r.submission_id == id) rows)
        ++ (a.filename ∷ [])
keep-append_one a id [] e = rw (e, ==_self id)
keep-append_one a id (r ∷ rows) e = ground (arith, keep-append_one a id rows e)

pub Holds-added :
    (a : AttachmentRow) (id : Uuid) (db : Db)
    → a.submission_id ≡ id
    → Holds id a.filename (add_attachment a db)
unfolding attached_filenames list_attachments add_attachment
Holds-added a id db e =
    rw
      (
        keep-append_one a id db.attachments e,
        any-append (λ known. str_eq known a.filename)
            (map (λ (r : AttachmentRow). r.filename)
              (keep (λ r. r.submission_id == id) db.attachments))
            (a.filename ∷ []),
        eq_refl a.filename,
      )
      (or-true _ true refl)

pub Holds-add_attachment :
    (a : AttachmentRow) (id : Uuid) (name : String) (db : Db)
    → a.submission_id ≡ id
    → Holds id name db
    → Holds id name (add_attachment a db)
unfolding attached_filenames list_attachments add_attachment
Holds-add_attachment a id name db e h = rw (
  keep-append_one a id db.attachments e,
  any-append (λ known. str_eq known name)
      (map (λ (r : AttachmentRow). r.filename) (keep (λ r. r.submission_id == id) db.attachments))
      (a.filename ∷ []),
  h,
)
