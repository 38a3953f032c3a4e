-- ===== src/Rosa/Submitting/Resending.antt =====
-- A request that is sent again, and one that takes a stored instance id, to `submit` of
-- crates/collecta-server/src/openrosa/submission.rs.
use collecta.Prelude.{String, some, List, ◌≡◌, ◌≢◌, ◌⊎◌, refl, sym, ◌∙◌}
use collecta.Server.Auth.{Caller, Reply, ok, fail, conflict}
use collecta.Server.SubmissionTable.{StoredInstance, find_instance}
use collecta.Server.Handlers.{State, after_gate}
use collecta.Rosa.Result.{Result}
use collecta.Rosa.Parts.{MultipartError, Part}
use collecta.Rosa.Submitting.{
  Outside, Draw, Ready, user, check_request, file_instance, submit_instance,
}
use collecta.Rosa.Submitting.Checks.{
  ready_of, check_request-ok, check_request-again, get_form-kept, ready_of-form_id, Passed-named,
  Passed-collector,
}
use collecta.Rosa.Submitting.Claiming.{may_extend-other, insert_instance-stored}
use collecta.Rosa.Submitting.Refiling.{file_instance-eq, file_instance-again}

module _ (outside : Outside) (caller : Caller) where
  submit_instance-eq :
      (draw : Draw) (body : List (Result MultipartError Part)) (s : State)
      → submit_instance outside caller draw body s
        ≡ after_gate (check_request outside caller draw body s.db) (file_instance outside caller) s
  unfolding submit_instance
  submit_instance-eq draw body s = refl

  submit_instance-checked :
      (draw : Draw) (body : List (Result MultipartError Part)) (s : State) (ready : Ready)
      → check_request outside caller draw body s.db ≡ ok ready
      → submit_instance outside caller draw body s ≡ file_instance outside caller ready s
  submit_instance-checked draw body s ready e = submit_instance-eq draw body s ∙ rw e

  passed_gate :
      (draw : Draw) (body : List (Result MultipartError Part)) (s : State) (message : String)
      → (submit_instance outside caller draw body s).0 ≡ ok message
      → (ready : Ready) × (check_request outside caller draw body s.db ≡ ok ready)
  passed_gate draw body s message h =
      go (check_request outside caller draw body s.db) refl
        (rw (submit_instance-eq draw body s) at h)
    where
      go :
          (gate : Reply Ready)
          → check_request outside caller draw body s.db ≡ gate
          → (after_gate gate (file_instance outside caller) s).0 ≡ ok message
          → (ready : Ready) × (check_request outside caller draw body s.db ≡ ok ready)
      go (ok ready) e k = (ready, e)
      go (fail status m) e k = cc

  -- A submission request that was answered with success can be sent again, whole, at once, whatever id
  -- and times are drawn for it: it is answered with success, no submission and no attachment is added,
  -- and the state is as it was.
  pub submit_instance-again :
      (draw later : Draw) (body : List (Result MultipartError Part)) (s : State) (message : String)
      → (submit_instance outside caller draw body s).0 ≡ ok message
      → let once = (submit_instance outside caller draw body s).1 in
        submit_instance outside caller later body once ≡ (ok "attachments received (0 new)", once)
  submit_instance-again draw later body s message h =
      let (ready, checked) = passed_gate draw body s message h in
      let p = check_request-ok outside caller draw body s.db ready checked in
      let same_as = p.same in
      let (kept, quiet) =
        file_instance-again outside caller ready
          (ready_of outside caller later p.attachments p.xml p.parsed p.form) s message
          (Passed-named outside caller draw body s.db ready p)
          (Passed-collector outside caller draw body s.db ready p)
          (rw same_as (
            ready_of-form_id outside caller later p.attachments p.xml p.parsed p.form
            ∙ sym (ready_of-form_id outside caller draw p.attachments p.xml p.parsed p.form)))
          (rw same_as) (rw same_as) (rw same_as)
          (rw (submit_instance-checked draw body s ready checked) at h) in
      rw (submit_instance-checked draw body s ready checked) (
        submit_instance-checked later body _ _ (
          check_request-again outside caller draw later body s.db _ ready p
            (get_form-kept p.parsed.form_id _ s.db kept))
        ∙ quiet)

  -- A request that passes the checks and whose instance id is stored for its form under another hash, or
  -- from another account, is answered with a conflict, whatever its attachments are, and the state is as
  -- it was.
  pub submit_instance-conflict :
      (draw : Draw) (body : List (Result MultipartError Part)) (s : State) (ready : Ready)
      (stored : StoredInstance)
      → check_request outside caller draw body s.db ≡ ok ready
      → find_instance ready.submission.form_id ready.instance_id s.db ≡ some stored
      → (stored.instance_hash ≢ ready.instance_hash)
        ⊎ (stored.submission.collector_id ≢ some (user outside caller))
      → (message : String) × (submit_instance outside caller draw body s
          ≡ (fail conflict message, s))
  submit_instance-conflict draw body s ready stored checked found other =
      let named =
        Passed-named outside caller draw body s.db ready
          (check_request-ok outside caller draw body s.db ready checked) in
      let (message, refused) =
        may_extend-other (user outside caller) ready.instance_hash stored other in
      (
        message,
        submit_instance-checked draw body s ready checked
            ∙ file_instance-eq outside caller ready s
            ∙ rw (
              insert_instance-stored ready.submission ready.instance_id ready.instance_hash s.db
                  stored named found,
              refused,
            ),
      )
