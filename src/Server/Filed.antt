-- ===== src/Server/Filed.antt =====
-- What `submit` of crates/collecta-server/src/openrosa/submission.rs keeps true of the stored
-- submissions.
use collecta.Prelude.{
  ℕ, String, Bool, true, false, ◌&&◌, ◌||◌, none, some, List, [], ◌∷◌, ◌≡◌, refl, sym, ap, ◌∙◌,
  modify_first, All, All-append, All-In, In, find, any, inl, inr, Bool-cases, Option-cases, is_some,
  str_eq, some_inj, ==_iff, ◌==◌,
}
use collecta.Values.{Uuid}
use collecta.Form.{Form}
use collecta.Submission.{Submission}
use collecta.Server.{FormRow, SubmissionRow, AttachmentRow, Db}
use collecta.Server.Auth.{Caller, Reply, ok, fail}
use collecta.Server.FormTable.{get_form, live_row, is_live}
use collecta.Server.SubmissionTable.{
  taken, claimed, row_of, is_pair, insert_instance, insert_submission_if_new, delete_submission,
}
use collecta.Server.AttachmentTable.{attach, add_attachment}
use collecta.Server.Handlers.{State}
use collecta.Server.Ingest.{Attribution, RowOk, IsSound, get_form-live, if-keeps, after_gate-keeps}
use collecta.Server.Keyed.{IsKeyed}
use collecta.Rosa.Result.{Result}
use collecta.Rosa.Parts.{AttachmentPart, MultipartError, Part}
use collecta.Rosa.Storing.{
  Disk, Names, store_one, store_each, store_attachments, client_name, attachment_row,
  make_directory,
}
use collecta.Rosa.Submitting.{
  Outside, Draw, Ready, user, answer, claim, check_request, file_instance, submit_instance,
}
use collecta.Rosa.Submitting.Checks.{
  Passed, ready_of-form_id, check_request-ok, Passed-collector, Passed-id,
}

pub insert_new-forms :
    (s : Submission) (db : Db) → (insert_submission_if_new s db).0.forms ≡ db.forms
unfolding insert_submission_if_new
insert_new-forms s db = elim (Bool-cases (taken s.id db)) [ inl e ↦ rw e | inr e ↦ rw e ]

pub delete_submission-forms :
    (f id : Uuid) (db : Db) → (delete_submission f id db).0.forms ≡ db.forms
unfolding delete_submission
delete_submission-forms f id db = elim (Bool-cases (any (is_pair f id) db.submissions)) [
  | inl e ↦ rw e
  | inr e ↦ rw e
]

-- Attachments change no column that the soundness of a row reads.
All-modify_first :
    (filed : Attribution) (forms : List FormRow) (a : AttachmentRow) (q : SubmissionRow → Bool)
    (rows : List SubmissionRow)
    → All (RowOk filed forms) rows
    → All (RowOk filed forms) (modify_first q (attach a) rows)
All-modify_first filed forms a q [] h = tt
All-modify_first filed forms a q (row ∷ rows) h = elim (Bool-cases (q row)) [
  | inl e ↦ rw e h
  | inr e ↦ rw e (h.0, All-modify_first filed forms a q rows h.1)
]

-- The stored submissions are sound and the forms table keyed.
abbrev pub IsFiled : Attribution → State → Type 0
IsFiled filed s = IsSound filed s.db × IsKeyed s.db.forms

add_attachment-IsFiled :
    (filed : Attribution) (a : AttachmentRow) (s : State)
    → IsFiled filed s
    → IsFiled filed (record s { db = add_attachment a s.db })
unfolding add_attachment
add_attachment-IsFiled filed a s v =
    (All-modify_first filed s.db.forms a (λ r. r.id == a.submission_id) s.db.submissions v.0, v.1)

module _ (filed : Attribution) (disk : Disk) (id : Uuid) (already : List String)
    (names : Names) where
  store_one-IsFiled :
      (a : AttachmentPart) (n : ℕ) (s : State)
      → IsFiled filed s
      → IsFiled filed (store_one disk id already names a n s).1
  unfolding store_one
  store_one-IsFiled a n s v =
      if-keeps (IsFiled filed) (any (λ known. str_eq known (client_name a)) already) _ _ v (
        if-keeps (IsFiled filed) (disk.takes_file id (disk.fresh n) a.content) _ _
          (add_attachment-IsFiled filed (attachment_row disk id names a (disk.fresh n)) s v) v)

  store_each-IsFiled :
      (parts : List AttachmentPart) (n : ℕ) (s : State)
      → IsFiled filed s
      → IsFiled filed (store_each disk id already names parts n s).1
  unfolding store_each
  store_each-IsFiled [] n s v = v
  store_each-IsFiled (a ∷ rest) n s v =
      after_gate-keeps (IsFiled filed) (store_one disk id already names a n s).0
        (store_each disk id already names rest) (store_one disk id already names a n s).1
        (store_one-IsFiled a n s v) (λ m e. store_each-IsFiled rest m _ (store_one-IsFiled a n s v))

module _ (filed : Attribution) (disk : Disk) (id : Uuid) (names : Names) where
  make_directory-IsFiled : (s : State) → IsFiled filed s → IsFiled filed (make_directory disk id s)
  make_directory-IsFiled s v = elim (Bool-cases (any (λ d. d == id) s.directories)) [
    | inl e ↦ rw e v
    | inr e ↦ rw e v
  ]

  pub store_attachments-IsFiled :
      (parts : List AttachmentPart) (s : State)
      → IsFiled filed s
      → IsFiled filed (store_attachments disk id names parts s).1
  unfolding store_attachments
  store_attachments-IsFiled [] s v = v
  store_attachments-IsFiled (a ∷ rest) s v =
      if-keeps (IsFiled filed) (disk.takes_directory id) _ _
        (store_each-IsFiled filed disk id _ names (a ∷ rest) 0 (make_directory disk id s)
          (make_directory-IsFiled s v))
        v

insert_instance-IsSound :
    (filed : Attribution) (s : Submission) (instance_id hash : String) (db : Db)
    → filed s.id s.collector_id
    → is_some (get_form s.form_id db) ≡ true
    → IsSound filed db
    → IsSound filed (insert_instance s instance_id hash db).0
      × ((insert_instance s instance_id hash db).0.forms ≡ db.forms)
unfolding insert_instance
insert_instance-IsSound filed s instance_id hash db named live v =
    elim (Bool-cases (taken s.id db || claimed s.form_id instance_id db)) [
      | inl e ↦ rw e (v, refl)
      | inr e ↦ rw e (
        All-append (RowOk filed db.forms) db.submissions (row_of s instance_id hash ∷ []) v
            ((refl, refl, named, sym (get_form-live s.form_id db) ∙ live), tt),
        refl,
      )
    ]

find-In :
    {A : Type 0} (p : A → Bool) (xs : List A) (x : A) → find p xs ≡ some x → In x xs × (p x ≡ true)
find-In p [] x h = cc
find-In p (y ∷ xs) x h = elim (Bool-cases (p y)) [
  | inl e ↦
      let same : some y ≡ some x = rw e at h in (inl (sym (some_inj same)), rw (← some_inj same) e)
  | inr e ↦ let deeper = find-In p xs x (rw e at h) in (inr deeper.0, deeper.1)
]

and-true_left : (a b : Bool) → (a && b) ≡ true → a ≡ true
and-true_left true b h = refl
and-true_left false b h = h

-- In a keyed table the definition that an id leads to has that id.
pub get_form-own_id :
    (id : Uuid) (db : Db) (form : Form)
    → IsKeyed db.forms
    → get_form id db ≡ some form
    → form.id ≡ id
unfolding get_form
get_form-own_id id db form keyed h = elim (Option-cases (live_row id db.forms)) [
  | inl n ↦ let none_some : none ≡ some form = rw n at h in cc
  | inr (row, e) ↦
      let (member, passes) = find-In (λ r. r.id == id && is_live r) db.forms row e in
      let own = All-In (λ r. r.form.id ≡ r.id) db.forms keyed.own_ids member in
      let same : row.form ≡ form = some_inj (rw e at h) in
      ap (λ (f : Form). f.id) (sym same)
      ∙ own
      ∙ (==_iff row.id id).0 (and-true_left (row.id == id) _ passes)
]

module _ (filed : Attribution) (outside : Outside) (caller : Caller) where
  answer-IsFiled :
      (again : Bool) (r : Reply ℕ × State)
      → IsFiled filed r.1
      → IsFiled filed (answer outside caller again r).1
  answer-IsFiled again (ok n, s) v = v
  answer-IsFiled again (fail status m, s) v = v

  file_instance-IsFiled :
      (ready : Ready) (s : State)
      → filed ready.submission.id ready.submission.collector_id
      → is_some (get_form ready.submission.form_id s.db) ≡ true
      → IsFiled filed s
      → IsFiled filed (file_instance outside caller ready s).1
  unfolding file_instance
  file_instance-IsFiled ready s named live v =
      let inserted = insert_instance ready.submission ready.instance_id ready.instance_hash s.db in
      let (sound, forms) =
        insert_instance-IsSound filed ready.submission ready.instance_id ready.instance_hash s.db
          named live v.0 in
      let kept : IsFiled filed (record s { db = inserted.0 }) = (sound, rw forms (v.1)) in
      after_gate-keeps (IsFiled filed) (claim (user outside caller) ready.instance_hash inserted.1)
        _ (record s { db = inserted.0 }) kept
        (λ target e. answer-IsFiled target.1 _ (
          store_attachments-IsFiled filed outside.disk target.0 _ ready.attachments
            (record s { db = inserted.0 }) kept))

  Passed-live :
      (draw : Draw) (body : List (Result MultipartError Part)) (db : Db) (ready : Ready)
      → IsKeyed db.forms
      → Passed outside caller draw body db ready
      → is_some (get_form ready.submission.form_id db) ≡ true
  Passed-live draw body db ready keyed p = rw (
    p.same,
    ready_of-form_id outside caller draw p.attachments p.xml p.parsed p.form,
    get_form-own_id p.parsed.form_id db p.form keyed p.live,
    p.live,
  )

  -- A submission request keeps the stored submissions sound, whatever it holds, if the drawn id may
  -- name its caller.
  pub submit_instance-IsFiled :
      (draw : Draw) (body : List (Result MultipartError Part)) (s : State)
      → filed draw.id (some (user outside caller))
      → IsFiled filed s
      → IsFiled filed (submit_instance outside caller draw body s).1
  unfolding submit_instance
  submit_instance-IsFiled draw body s named v =
      after_gate-keeps (IsFiled filed) (check_request outside caller draw body s.db) _ s v
        (λ ready e.
          let p = check_request-ok outside caller draw body s.db ready e in
          file_instance-IsFiled ready s
            (rw
              (
                Passed-id outside caller draw body s.db ready p,
                Passed-collector outside caller draw body s.db ready p,
              )
              named)
            (Passed-live draw body s.db ready v.1 p) v)
