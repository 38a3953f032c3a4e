-- ===== src/Server/Instances.antt =====
-- Claiming the instance id of a form: `Store::insert_instance` of crates/collecta-server/src/store.rs.
use collecta.Prelude.{
  append_assoc, String, Bool, true, false, ◌||◌, some, List, [], ◌∷◌, ◌++◌, ◌≡◌, refl, any, find,
  any-append, str_eq, eq_refl, ◌∙◌, ==_self, arith,
}
use collecta.Submission.{Submission}
use collecta.Server.{SubmissionRow, Db}
use collecta.Server.SubmissionTable.{
  taken, row_of, append_row, created, existing, is_instance, claimed, find_instance,
  insert_instance,
}

find-append :
    (p : SubmissionRow → Bool) (row : SubmissionRow) (rows more : List SubmissionRow)
    → any p rows ≡ false
    → p row ≡ true
    → find p (rows ++ (row ∷ more)) ≡ some row
find-append p row [] more h k = rw k
find-append p row (r ∷ rows) more h k = ground (arith, h, k, find-append p row rows more)

pub or-true : (a b : Bool) → b ≡ true → (a || b) ≡ true
or-true true b h = refl
or-true false b h = h

any-append_one :
    (p : SubmissionRow → Bool) (row : SubmissionRow) (rows more : List SubmissionRow)
    → p row ≡ true
    → any p (rows ++ (row ∷ more)) ≡ true
any-append_one p row rows more h =
    rw (any-append p rows (row ∷ more)) (or-true (any p rows) (any p (row ∷ more)) (rw h))

module _ (s : Submission) (instance_id first_hash : String) (db : Db) where
  first_insert :
      taken s.id db ≡ false
      → claimed s.form_id instance_id db ≡ false
      → insert_instance s instance_id first_hash db
        ≡ (append_row (row_of s instance_id first_hash) db, created s.id)
  unfolding insert_instance
  first_insert fresh free = rw (fresh, free)

  -- The row of the claim answers every read of the instance id, whatever rows come after it.
  find_instance-append :
      (later : Db) (more : List SubmissionRow)
      → str_eq instance_id "" ≡ false
      → claimed s.form_id instance_id db ≡ false
      → later.submissions ≡ db.submissions ++ (row_of s instance_id first_hash ∷ more)
      → find_instance s.form_id instance_id later
        ≡ some (record { submission = s; instance_hash = first_hash })
  unfolding find_instance
  find_instance-append later more named free grown =
      let absent : any (is_instance s.form_id instance_id) db.submissions ≡ false =
        ground (arith, named, free) in
      rw (
        grown,
        find-append (is_instance s.form_id instance_id) (row_of s instance_id first_hash)
            db.submissions more absent (rw (==_self s.form_id, eq_refl instance_id)),
      )

  pub find_instance-append_row :
      str_eq instance_id "" ≡ false
      → claimed s.form_id instance_id db ≡ false
      → find_instance s.form_id instance_id (append_row (row_of s instance_id first_hash) db)
        ≡ some (record { submission = s; instance_hash = first_hash })
  find_instance-append_row named free =
      find_instance-append (append_row (row_of s instance_id first_hash) db) [] named free refl

  later_insert :
      (t : Submission) (later_hash : String) (later : Db) (more : List SubmissionRow)
      → str_eq instance_id "" ≡ false
      → claimed s.form_id instance_id db ≡ false
      → t.form_id ≡ s.form_id
      → later.submissions ≡ db.submissions ++ (row_of s instance_id first_hash ∷ more)
      → insert_instance t instance_id later_hash later
        ≡ (later, existing (record { submission = s; instance_hash = first_hash }))
  unfolding insert_instance
  later_insert t later_hash later more named free same grown =
      let held : claimed s.form_id instance_id later ≡ true =
        rw
          (
            named,
            grown,
            any-append_one (is_instance s.form_id instance_id) (row_of s instance_id first_hash)
                db.submissions more (rw (==_self s.form_id, eq_refl instance_id)),
          )
          refl in
      rw (same, or-true (taken t.id later) _ held, find_instance-append later more named free grown)

-- An instance id, not the empty one, that no submission of the form has is claimed by the first
-- submission that brings it under an id not yet stored, and answered with that id. In any later database
-- that holds the submissions there were, that one and whatever was stored after it, a submission to the
-- form with that instance id, its own id and its hash whatever they are, changes nothing and is answered
-- with the first submission and the first hash.
pub insert_instance-once :
    (s t : Submission) (instance_id first_hash later_hash : String) (db later : Db)
    (more : List SubmissionRow)
    → str_eq instance_id "" ≡ false
    → taken s.id db ≡ false
    → claimed s.form_id instance_id db ≡ false
    → t.form_id ≡ s.form_id
    → later.submissions ≡ (insert_instance s instance_id first_hash db).0.submissions ++ more
    → ((insert_instance s instance_id first_hash db).1 ≡ created s.id)
      × (insert_instance t instance_id later_hash later
          ≡ (later, existing (record { submission = s; instance_hash = first_hash })))
insert_instance-once s t instance_id first_hash later_hash db later more named fresh free same
      grown =
    let first = first_insert s instance_id first_hash db fresh free in
    let rows : later.submissions ≡ db.submissions ++ (row_of s instance_id first_hash ∷ more) =
      rw first at grown ∙ append_assoc db.submissions (row_of s instance_id first_hash ∷ []) more in
    (
      rw first refl,
      later_insert s instance_id first_hash db t later_hash later more named free same rows,
    )
