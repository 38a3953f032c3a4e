-- ===== src/Server/Runs.antt =====
-- Every run of the handlers that crates/collecta-server/src/lib.rs routes to, publishing and OpenRosa
-- submissions among them.
use collecta.Prelude.{
  Option, [], ◌∷◌, ◌++◌, map, In, In-append_left, In-append_right, All, String, List, Bool, true,
  false, some, ◌≡◌, refl, sym, Bool-cases, inl, inr, ==_iff, ◌==◌,
}
use collecta.Values.{Uuid, Instant}
use collecta.Form.{Form}
use collecta.Submission.{Submission}
use collecta.Protocol.{PushRequest}
use collecta.Server.{Db}
use collecta.Server.Auth.{is_admin, Caller}
use collecta.Server.FormTable.{grant_form, revoke_form}
use collecta.Server.SubmissionTable.{insert_submission}
use collecta.Server.Handlers.{
  State, Platform, store_form, remove_form, remove_submission, create_grant, revoke_grant, submit,
  sync_push, check_submission, record_submitter, require_owner, insert_answer,
}
use collecta.Server.Ingest.{
  Attribution, IsSound-imp, if-keeps, IsSound, insert_form-IsSound, delete_form-IsSound,
  delete_submission-IsSound, insert_new-IsSound, insert_submission-same, db-remove_all_files,
  after_gate-keeps, push_all-IsSound, check_submission-ok,
}
use collecta.Server.Idempotence.{push_all-Extends}
use collecta.Server.Keyed.{IsKeyed, insert_form-IsKeyed, delete_form-IsKeyed}
use collecta.Server.Filed.{
  IsFiled, submit_instance-IsFiled, insert_new-forms, delete_submission-forms,
}
use collecta.Server.FormTable.{FormWriter, insert_form}
use collecta.Server.SubmissionTable.{delete_submission}
use collecta.Publish.Client.{Trace}
use collecta.Publish.Run.{Settings, publish}
use collecta.Publish.Keeps.{publish-IsFiled}
use collecta.Rosa.Result.{Result}
use collecta.Rosa.Tree.{Event}
use collecta.Rosa.Instance.{Reader}
use collecta.Rosa.Parts.{Bytes, MultipartError, Part}
use collecta.Rosa.Storing.{Disk}
use collecta.Rosa.Submitting.{Draw, submit_instance}

-- That an account sent a submission of an id.
pub record Filing : Type 0 where
  pub id : Uuid
  pub account : Uuid

abbrev pub filing : Caller → Submission → Filing
filing c x = record { id = x.id; account = c.id }

-- The requests that can change the state, each by any caller with any arguments, with what each files:
-- the ids of the submissions it brings, and its caller. `create_form` and `import_form` are both the
-- first. A publish may be answered anything by the
-- geodatabase, whatever it was asked before.
pub data Step (platform : Platform) : List Filing → State → State → Type 0 where
  stored :
      (s : State) (c : Caller) (f : Form) (now : Instant)
      → Step platform [] s (store_form c f now s).1
  form_removed :
      (s : State) (c : Caller) (id : Uuid) (now : Instant)
      → Step platform [] s (remove_form c id now s).1
  submission_removed :
      (s : State) (c : Caller) (f id : Uuid) → Step platform [] s (remove_submission c f id s).1
  granted :
      (s : State) (c : Caller) (f u : Uuid) (now : Instant)
      → Step platform [] s (create_grant c f u now s).1
  revoked : (s : State) (c : Caller) (f u : Uuid) → Step platform [] s (revoke_grant c f u s).1
  submitted :
      (s : State) (c : Caller) (f : Uuid) (x : Submission)
      → Step platform (filing c x ∷ []) s (submit platform c f x s).1
  pushed :
      (s : State) (c : Caller) (r : PushRequest)
      → Step platform (map (filing c) r.submissions) s (sync_push platform c r s).1
  instance_submitted :
      (s : State) (c : Caller) (reader : Reader) (events : Bytes → List Event)
      (hash : Bytes → String) (disk : Disk) (draw : Draw) (body : List (Result MultipartError Part))
      → Step platform
          (record { id = draw.id; account = c.id } ∷ [])
          s
          (submit_instance
            (record {
              platform = platform;
              reader = reader;
              events = events;
              hash = hash;
              disk = disk;
            })
            c
            draw
            body
            s).1
  published :
      (s : State) (c : Caller) (settings : Settings) (f : Uuid) (token : Option String)
      (trace : Trace) (now : Instant)
      → Step platform [] s
          (publish settings now f c token (record { state = s; trace = trace })).1.state

-- The runs of requests from a state, with all that was filed: `before` the run, and in it.
pub data Reach (platform : Platform) (before : List Filing) (s : State)
    : List Filing → State → Type 0 where
  here : Reach platform before s before s
  next :
      {sent more : List Filing} {t u : State}
      → Reach platform before s sent t
      → Step platform more t u
      → Reach platform before s (sent ++ more) u

-- A submission of the id names an account that sent one of that id, as printed.
abbrev pub FiledBy : Platform → List Filing → Attribution
FiledBy p sent id collector =
    (f : Filing) × In f sent × (f.id ≡ id) × (collector ≡ some (p.show_uuid f.account))

store_form-IsFiled :
    (filed : Attribution) (c : Caller) (f : Form) (now : Instant) (s : State)
    → IsFiled filed s
    → IsFiled filed (store_form c f now s).1
unfolding store_form
store_form-IsFiled filed c f now s v =
    let writer : FormWriter = record { id = some c.id; overwrite_any = is_admin c.role } in
    let kept : IsFiled filed (record s { db = (insert_form f writer now s.db).0 }) = (
      insert_form-IsSound filed f writer now s.db v.0,
      insert_form-IsKeyed f writer now s.db v.1,
    ) in
    if-keeps (IsFiled filed) _ _ _ kept kept

insert_answer-Sound :
    (filed : Attribution) (p : Platform) (id : Uuid) (w : Db × Bool) (s : State)
    → IsSound filed w.0 × IsKeyed w.0.forms
    → IsFiled filed (insert_answer p id w s).1
insert_answer-Sound filed p id (db, true) s v = v
insert_answer-Sound filed p id (db, false) s v = v

submit-IsFiled :
    (filed : Attribution) (p : Platform) (c : Caller) (f : Uuid) (x : Submission) (s : State)
    → filed x.id (some (p.show_uuid c.id))
    → IsFiled filed s
    → IsFiled filed (submit p c f x s).1
unfolding submit record_submitter
submit-IsFiled filed p c f x s named v = elim (Bool-cases (x.form_id == f)) [
  | inl e ↦
      let same : f ≡ x.form_id = sym ((==_iff x.form_id f).0 e) in
      rw e (
        after_gate-keeps (IsFiled filed) (check_submission p f (record_submitter p c x) s.db) _ s v
          (λ _ passed.
            let form = check_submission-ok p c f (record_submitter p c x) s.db passed in
            insert_answer-Sound filed p x.id (insert_submission (record_submitter p c x) s.db) s (
              rw (insert_submission-same (record_submitter p c x) s.db) (
                insert_new-IsSound filed (record_submitter p c x) s.db named (rw (← same, form.1))
                    v.0,
                rw (insert_new-forms (record_submitter p c x) s.db) (v.1),
              ))))
  | inr e ↦ rw e v
]

All-filings :
    (p : Platform) (c : Caller) (filed : Attribution) (xs : List Submission)
    → ((id : Uuid) (o : Option String) → FiledBy p (map (filing c) xs) id o → filed id o)
    → All (λ x. filed x.id (some (p.show_uuid c.id))) xs
All-filings p c filed [] h = tt
All-filings p c filed (x ∷ xs) h = (
  h x.id _ (filing c x, inl refl, refl, refl),
  All-filings p c filed xs (λ id o (f, i, e, q). h id o (f, inr i, e, q)),
)

-- A request keeps soundness under every attribution that allows what it files.
Step-allowed :
    (p : Platform) {more : List Filing} {s t : State}
    → Step p more s t
    → (filed : Attribution) → ((id : Uuid) (c : Option String) → FiledBy p more id c → filed id c)
    → IsFiled filed s
    → IsFiled filed t
unfolding remove_form remove_submission create_grant revoke_grant grant_form revoke_form sync_push
Step-allowed p (stored s c f now) filed h v = store_form-IsFiled filed c f now s v
Step-allowed p (form_removed s c id now) filed h v =
    after_gate-keeps (IsFiled filed) (require_owner c id s.db) _ s v (λ _ _.
      rw (db-remove_all_files _ _)
        (delete_form-IsSound filed id now s.db v.0, delete_form-IsKeyed id now s.db v.1))
Step-allowed p (submission_removed s c f id) filed h v =
    let kept : IsFiled filed (record s { db = (delete_submission f id s.db).0 }) = (
      delete_submission-IsSound filed f id s.db v.0,
      rw (delete_submission-forms f id s.db) (v.1),
    ) in
    after_gate-keeps (IsFiled filed) (require_owner c f s.db) _ s v
      (λ _ _. if-keeps (IsFiled filed) _ _ _ kept kept)
Step-allowed p (granted s c f u now) filed h v =
    after_gate-keeps (IsFiled filed) (require_owner c f s.db) _ s v
      (λ _ _. if-keeps (IsFiled filed) _ _ _ v v)
Step-allowed p (revoked s c f u) filed h v =
    after_gate-keeps (IsFiled filed) (require_owner c f s.db) _ s v
      (λ _ _. if-keeps (IsFiled filed) _ _ _ v v)
Step-allowed p (submitted s c f x) filed h v =
    submit-IsFiled filed p c f x s (h x.id _ (filing c x, inl refl, refl, refl)) v
Step-allowed p (pushed s c r) filed h v = (
  push_all-IsSound p c filed r.submissions s.db (All-filings p c filed r.submissions h) v.0,
  rw (← (push_all-Extends p c r.submissions s.db).forms) (v.1),
)
Step-allowed p (instance_submitted s c reader events hash disk draw body) filed h v =
    submit_instance-IsFiled filed
      (record { platform = p; reader = reader; events = events; hash = hash; disk = disk }) c draw
      body s (h draw.id _ (record { id = draw.id; account = c.id }, inl refl, refl, refl)) v
Step-allowed p (published s c settings f token trace now) filed h v =
    publish-IsFiled filed settings now f c token (record { state = s; trace = trace }) v

more_filings :
    (p : Platform) (sent more : List Filing) (s : State)
    → IsFiled (FiledBy p sent) s
    → IsFiled (FiledBy p (sent ++ more)) s
more_filings p sent more s v = (
  IsSound-imp (FiledBy p sent) (FiledBy p (sent ++ more)) s.db
      (λ id c (f, i, e, q). (f, In-append_left f sent more i, e, q)) v.0,
  v.1,
)

Step-IsFiled :
    (p : Platform) (sent : List Filing) {more : List Filing} {s t : State}
    → Step p more s t
    → IsFiled (FiledBy p sent) s
    → IsFiled (FiledBy p (sent ++ more)) t
Step-IsFiled p sent {more} {s} st v =
    Step-allowed p st (FiledBy p (sent ++ more))
      (λ id c (f, i, e, q). (f, In-append_right f sent more i, e, q)) (more_filings p sent more s v)

-- In every state that requests, those of the JSON interface, publishing included, and OpenRosa
-- submissions, can lead to from a sound one with a keyed forms table, each stored submission has the id
-- and the form that its columns say, names as its collector the printed id of an account that sent a
-- submission of that id, whatever collector the document claimed, and belongs to a form that is live:
-- deleting a form leaves no orphan, and no request files under a missing form.
pub Reach-Sound :
    (p : Platform) {before sent : List Filing} {s t : State}
    → IsSound (FiledBy p before) s.db
    → IsKeyed s.db.forms
    → Reach p before s sent t
    → IsSound (FiledBy p sent) t.db
Reach-Sound p {before} {s = s} v k r = (all_steps r).0
  where
    all_steps :
        {sent : List Filing} {t : State} → Reach p before s sent t → IsFiled (FiledBy p sent) t
    all_steps here = (v, k)
    all_steps (next {sent} r st) = Step-IsFiled p sent st (all_steps r)
