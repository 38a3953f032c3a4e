-- ===== src/Rosa/Submitting/Refiling.antt =====
-- Filing an instance whose id is stored: `claim` and the attachments after it, in `submit` of
-- crates/collecta-server/src/openrosa/submission.rs.
use mathlib.Core.Path.{subst}
use collecta.Prelude.{ℕ, String, Bool, false, show_ℕ, some, [], ◌≡◌, refl, sym, ◌∙◌, str_eq}
use collecta.Values.{Uuid}
use collecta.Server.{Db}
use collecta.Server.Auth.{Caller, Reply, ok, fail}
use collecta.Server.SubmissionTable.{InstanceInsert, insert_instance}
use collecta.Server.Handlers.{State, after_gate}
use collecta.Rosa.Storing.{Names, field_by_filename, store_attachments}
use collecta.Rosa.Submitting.{Outside, Ready, claim, user, show_stored, answer, file_instance}
use collecta.Rosa.Submitting.Filing.{store_attachments-again}
use collecta.Rosa.Submitting.Claims.{Claimed}
use collecta.Rosa.Submitting.Claiming.{
  may_extend-same, insert_instance-stored, insert_instance-Claimed,
}

module _ (outside : Outside) (caller : Caller) where
  abbrev names_of : Ready → Names
  names_of ready = field_by_filename ready.form.fields ready.submission.values []

  abbrev inserted : Ready → State → Db × InstanceInsert
  inserted ready s = insert_instance ready.submission ready.instance_id ready.instance_hash s.db

  abbrev then_store : Ready → Uuid × Bool → State → Reply String × State
  then_store ready target t =
      answer outside caller target.1
        (store_attachments outside.disk target.0 (names_of ready) ready.attachments t)

  pub file_instance-eq :
      (ready : Ready) (s : State)
      → file_instance outside caller ready s
        ≡ after_gate
            (claim (user outside caller) ready.instance_hash (inserted ready s).1)
            (then_store ready)
            (record s { db = (inserted ready s).0 })
  unfolding file_instance
  file_instance-eq ready s = refl

  answer-ok :
      (again : Bool) (r : Reply ℕ × State) (message : String)
      → (answer outside caller again r).0 ≡ ok message
      → (n : ℕ) × (r.0 ≡ ok n)
  answer-ok again (ok n, s) message h = (n, refl)
  answer-ok again (fail status m, s) message h = cc

  answer-state : (again : Bool) (r : Reply ℕ × State) → (answer outside caller again r).1 ≡ r.1
  answer-state again (ok n, s) = refl
  answer-state again (fail status m, s) = refl

  -- What a request that was filed went through.
  record Went (ready : Ready) (s : State) (r : Reply String × State) : Type 0 where
    target : Uuid × Bool
    n : ℕ
    accepted : claim (user outside caller) ready.instance_hash (inserted ready s).1 ≡ ok target
    stored :
        (store_attachments outside.disk target.0
          (names_of ready)
          ready.attachments
          (record s { db = (inserted ready s).0 })).0
        ≡ ok n
    state :
        r.1
        ≡ (store_attachments outside.disk target.0
            (names_of ready)
            ready.attachments
            (record s { db = (inserted ready s).0 })).1

  went :
      (ready : Ready) (s : State) (message : String)
      → (file_instance outside caller ready s).0 ≡ ok message
      → Went ready s (file_instance outside caller ready s)
  went ready s message h = subst (Went ready s) (sym (file_instance-eq ready s)) (
      go (claim (user outside caller) ready.instance_hash (inserted ready s).1) refl
        (rw (file_instance-eq ready s) at h))
    where
      go :
          (gate : Reply (Uuid × Bool))
          → claim (user outside caller) ready.instance_hash (inserted ready s).1 ≡ gate
          → (after_gate gate (then_store ready) (record s { db = (inserted ready s).0 })).0
            ≡ ok message
          → Went ready s
              (after_gate gate (then_store ready) (record s { db = (inserted ready s).0 }))
      go (ok target) e k =
          let done =
            answer-ok target.1
              (store_attachments outside.disk target.0 (names_of ready) ready.attachments
                (record s { db = (inserted ready s).0 }))
              message k in
          record {
            target = target;
            n = done.0;
            accepted = e;
            stored = done.1;
            state = answer-state target.1 _;
          }
      go (fail status m) e k = cc

  -- An instance that the account may extend, with attachments that are all stored.
  refiled :
      (ready : Ready) (id : Uuid) (t : State)
      → str_eq ready.instance_id "" ≡ false
      → Claimed ready.submission.form_id ready.instance_id ready.instance_hash
          (user outside caller)
          id
          t.db
      → store_attachments outside.disk id (names_of ready) ready.attachments t ≡ (ok 0, t)
      → file_instance outside caller ready t ≡ (ok "attachments received (0 new)", t)
  unfolding show_stored show_ℕ
  refiled ready id t named (stored, f, h, c, i) quiet =
      file_instance-eq ready t
      ∙ rw (
        insert_instance-stored ready.submission ready.instance_id ready.instance_hash t.db stored
            named f,
        may_extend-same (user outside caller) ready.instance_hash stored h c,
        i,
        quiet,
      )

  -- Filed once, the instance is settled: filing it again changes nothing.
  pub file_instance-again :
      (ready later : Ready) (s : State) (message : String)
      → str_eq ready.instance_id "" ≡ false
      → ready.submission.collector_id ≡ some (user outside caller)
      → later.submission.form_id ≡ ready.submission.form_id
      → later.instance_id ≡ ready.instance_id
      → later.instance_hash ≡ ready.instance_hash
      → later.attachments ≡ ready.attachments
      → (file_instance outside caller ready s).0 ≡ ok message
      → let after = (file_instance outside caller ready s).1 in
        (after.db.forms ≡ s.db.forms)
        × (file_instance outside caller later after ≡ (ok "attachments received (0 new)", after))
  file_instance-again ready later s message named filed same_form same_id same_hash same_parts h =
      let w = went ready s message h in
      let (claimed_at, forms) =
        insert_instance-Claimed ready.submission ready.instance_id ready.instance_hash
          (user outside caller) s.db named filed w.target w.accepted in
      let (kept, claims, quiet) =
        store_attachments-again outside.disk w.target.0 (names_of ready) (names_of later)
          ready.attachments (record s { db = (inserted ready s).0 }) w.n w.stored in
      rw (w.state) (
        sym kept ∙ forms,
        refiled later w.target.0 _ (rw same_id named)
            (rw (same_form, same_id, same_hash)
              (claims ready.submission.form_id ready.instance_id ready.instance_hash
                (user outside caller) claimed_at))
            (rw same_parts quiet),
      )
