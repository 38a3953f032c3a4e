-- ===== src/Rosa/Submitting/Claiming.antt =====
-- Which stored instance a request may extend, and what the insert leaves: `insert_instance` and the
-- tests after it in `submit` of crates/collecta-server/src/openrosa/submission.rs.
use mathlib.Core.Path.{subst}
use collecta.Prelude.{
  String, Bool, true, false, ◌||◌, none, some, List, [], ◌∷◌, ◌≡◌, ◌≢◌, ◌⊎◌, refl, sym, ap, ◌∙◌,
  find, any, str_eq, eq_iff, Bool-cases, Option-cases, inl, inr, true≢false,
}
use collecta.Values.{Uuid}
use collecta.Submission.{Submission}
use collecta.Server.{Db}
use collecta.Server.Auth.{Reply, ok, fail, conflict}
use collecta.Server.SubmissionTable.{
  StoredInstance, InstanceInsert, created, existing, taken, claimed, is_instance, row_of,
  append_row, find_instance, insert_instance, existing_or,
}
use collecta.Server.Instances.{find_instance-append_row, or-true}
use collecta.Rosa.Submitting.{may_extend, claim, user, other_bytes, other_account}
use collecta.Rosa.Submitting.Checks.{and_then-ok}
use collecta.Rosa.Submitting.Claims.{Claimed}

-- What lets a stored instance be extended: the same bytes, from the same account.
may_extend-ok :
    (user hash : String) (stored : StoredInstance) (id : Uuid)
    → may_extend user hash stored ≡ ok id
    → (stored.instance_hash ≡ hash)
      × (stored.submission.collector_id ≡ some user)
      × (stored.submission.id ≡ id)
may_extend-ok user hash stored id h = elim (Bool-cases (str_eq stored.instance_hash hash)) [
  | inr e ↦ let refused : (let r : Reply Uuid = fail conflict _ in r) ≡ ok id = rw e at h in cc
  | inl e ↦ elim (Option-cases stored.submission.collector_id) [
    | inl n ↦
        let refused : (let r : Reply Uuid = fail conflict _ in r) ≡ ok id = rw (e, n) at h in cc
    | inr (c, s) ↦ elim (Bool-cases (str_eq c user)) [
      | inr d ↦
          let refused : (let r : Reply Uuid = fail conflict _ in r) ≡ ok id = rw (e, s, d) at h in
          cc
      | inl d ↦
          let same : (let r : Reply Uuid = ok stored.submission.id in r) ≡ ok id =
            rw (e, s, d) at h in
          ((eq_iff stored.instance_hash hash).0 e, s ∙ ap some ((eq_iff c user).0 d), cc)
    ]
  ]
]

pub may_extend-other :
    (user hash : String) (stored : StoredInstance)
    → (stored.instance_hash ≢ hash) ⊎ (stored.submission.collector_id ≢ some user)
    → (message : String) × (may_extend user hash stored ≡ fail conflict message)
may_extend-other user hash stored other = elim (Bool-cases (str_eq stored.instance_hash hash)) [
  | inr e ↦ (other_bytes, rw e)
  | inl e ↦ elim (Option-cases stored.submission.collector_id) [
    | inl n ↦ (other_account, rw (e, n))
    | inr (c, s) ↦ elim (Bool-cases (str_eq c user)) [
      | inr d ↦ (other_account, rw (e, s, d))
      | inl d ↦ elim other [
        | inl f ↦ absurd (f ((eq_iff stored.instance_hash hash).0 e))
        | inr f ↦ absurd (f (s ∙ ap some ((eq_iff c user).0 d)))
      ]
    ]
  ]
]

pub may_extend-same :
    (user hash : String) (stored : StoredInstance)
    → stored.instance_hash ≡ hash
    → stored.submission.collector_id ≡ some user
    → may_extend user hash stored ≡ ok stored.submission.id
may_extend-same user hash stored h c =
    rw (c, (eq_iff stored.instance_hash hash).1 h, (eq_iff user user).1 refl)

-- An instance id that a submission of the form has is taken.
find-any : {A : Type 0} (p : A → Bool) (xs : List A) (x : A) → find p xs ≡ some x → any p xs ≡ true
find-any p [] x h = cc
find-any p (y ∷ xs) x h = elim (Bool-cases (p y)) [
  | inl e ↦ rw e
  | inr e ↦ rw e (find-any p xs x (rw e at h))
]

find_instance-claimed :
    (form_id : Uuid) (instance_id : String) (db : Db) (stored : StoredInstance)
    → str_eq instance_id "" ≡ false
    → find_instance form_id instance_id db ≡ some stored
    → claimed form_id instance_id db ≡ true
unfolding find_instance
find_instance-claimed form_id instance_id db stored named h =
    elim (Option-cases (find (is_instance form_id instance_id) db.submissions)) [
      | inl n ↦ let none_some : none ≡ some stored = rw n at h in cc
      | inr (row, e) ↦ rw (named, find-any (is_instance form_id instance_id) db.submissions row e)
    ]

-- A stored instance id: the insert changes nothing and answers what is stored.
pub insert_instance-stored :
    (s : Submission) (instance_id hash : String) (db : Db) (stored : StoredInstance)
    → str_eq instance_id "" ≡ false
    → find_instance s.form_id instance_id db ≡ some stored
    → insert_instance s instance_id hash db ≡ (db, existing stored)
unfolding insert_instance
insert_instance-stored s instance_id hash db stored named h =
    rw
      (or-true (taken s.id db) _ (find_instance-claimed s.form_id instance_id db stored named h), h)

-- After an insert that lets the account go on, the id is claimed by it.
extended :
    (user hash : String) (stored : StoredInstance) (target : Uuid × Bool)
    → claim user hash (existing stored) ≡ ok target
    → (stored.instance_hash ≡ hash)
      × (stored.submission.collector_id ≡ some user)
      × (stored.submission.id ≡ target.0)
extended user hash stored target h =
    let (id, m, e) = and_then-ok (may_extend user hash stored) _ target h in
    let found = may_extend-ok user hash stored id m in
    let same : id ≡ target.0 = cc in (found.0, found.1, found.2 ∙ same)

claim_of_none :
    (user hash : String) (target : Uuid × Bool) → ¬ claim user hash (existing_or none) ≡ ok target
claim_of_none user hash target h = cc

insert_instance-found :
    (s : Submission) (instance_id hash : String) (db : Db)
    → (taken s.id db || claimed s.form_id instance_id db) ≡ true
    → insert_instance s instance_id hash db
      ≡ (db, existing_or (find_instance s.form_id instance_id db))
unfolding insert_instance
insert_instance-found s instance_id hash db e = rw e

insert_instance-new :
    (s : Submission) (instance_id hash : String) (db : Db)
    → (taken s.id db || claimed s.form_id instance_id db) ≡ false
    → insert_instance s instance_id hash db
      ≡ (append_row (row_of s instance_id hash) db, created s.id)
unfolding insert_instance
insert_instance-new s instance_id hash db e = rw e

or-false_right : (a b : Bool) → (a || b) ≡ false → b ≡ false
or-false_right true b h = absurd (true≢false h)
or-false_right false b h = h

-- What `claim` accepts, against what the insert left.
abbrev pub Accepted :
    (form_id : Uuid) (instance_id hash user : String) → Db → Db × InstanceInsert → Type 0
Accepted form_id instance_id hash user db r =
    (target : Uuid × Bool)
    → claim user hash r.1 ≡ ok target
    → Claimed form_id instance_id hash user target.0 r.0 × (r.0.forms ≡ db.forms)

pub insert_instance-Claimed :
    (s : Submission) (instance_id hash user : String) (db : Db)
    → str_eq instance_id "" ≡ false
    → s.collector_id ≡ some user
    → Accepted s.form_id instance_id hash user db (insert_instance s instance_id hash db)
insert_instance-Claimed s instance_id hash user db named filed =
    elim (Bool-cases (taken s.id db || claimed s.form_id instance_id db)) [
      | inl e ↦
          subst (Accepted s.form_id instance_id hash user db)
            (sym (insert_instance-found s instance_id hash db e))
            (elim (Option-cases (find_instance s.form_id instance_id db)) [
              | inl n ↦ rw n (λ target h. absurd (claim_of_none user hash target h))
              | inr (stored, f) ↦ rw f (λ target h.
                  let same = extended user hash stored target h in
                  ((stored, refl, same.0, same.1, same.2), refl))
            ])
      | inr e ↦
          subst (Accepted s.form_id instance_id hash user db)
            (sym (insert_instance-new s instance_id hash db e))
            (λ target h. (
              (
                record { submission = s; instance_hash = hash },
                find_instance-append_row s instance_id hash db named
                    (or-false_right (taken s.id db) _ e),
                refl,
                filed,
                cc,
              ),
              refl,
            ))
    ]
