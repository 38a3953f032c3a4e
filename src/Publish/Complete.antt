-- ===== src/Publish/Complete.antt =====
-- What a run of `publish` of crates/collecta-server/src/publish.rs that ends well has delivered.
use mathlib.Core.Path.{subst}
use collecta.Prelude.{
  String, true, Option, none, some, ◌≡◌, refl, sym, ◌∙◌, All-In, some_inj, ==_iff, In,
  In-append_left, In-append_right, Bool-cases, inl, inr, ◌==◌,
}
use collecta.Values.{Uuid, Instant}
use collecta.Form.{Form}
use collecta.Server.{SubmissionRow, PublishTarget}
use collecta.Server.Auth.{Caller, Reply, ok, fail, Status, or_fail}
use collecta.Server.FormTable.{get_form}
use collecta.Server.Handlers.{require_owner}
use collecta.Server.PublishTable.{is_published, publish_target}
use collecta.Publish.Feature.{InsertOperation, insert_operation}
use collecta.Publish.Client.{World, Call, Ptolemy, continue, new}
use collecta.Publish.Fresh.{In-ids_of}
use collecta.Publish.Run.{Settings, PublishResponse, target_or_create, publish_pending, publish}
use collecta.Publish.Pending.{In-sent_ids}
use collecta.Publish.Delivery.{delivered}
use collecta.Publish.Once.{
  IsPublishable, target-Quiet, Quiet-IsPublishable, ran, run_batches, all_ids-batches,
}

continue-ok :
    {A B : Type 0} (r : Reply A × World) (k : A → Call B) (b : B)
    → (continue r k).0 ≡ ok b
    → (a : A) × (r.0 ≡ ok a) × ((k a r.1).0 ≡ ok b) × (continue r k ≡ k a r.1)
continue-ok (ok a, w) k b h = (a, refl, h, refl)
continue-ok (fail s m, w) k b h = cc

or_fail-ok :
    {A : Type 0} (o : Option A) (s : Status) (m : String) (a : A)
    → or_fail o s m ≡ ok a
    → o ≡ some a
or_fail-ok none s m a h = cc
or_fail-ok (some x) s m a h = cc

module _ (settings : Settings) (now : Instant) (form_id : Uuid) where
  -- A row that has something to send is sent by a run that ends well, or was before.
  pending_delivered :
      (ptolemy : Ptolemy) (form : Form) (author : String) (target : PublishTarget) (w : World)
      (response : PublishResponse) (row : SubmissionRow) (o : InsertOperation)
      → IsPublishable w
      → (publish_pending settings now form_id ptolemy form author target w).0 ≡ ok response
      → In row w.state.db.submissions
      → (row.form_id == form_id) ≡ true
      → insert_operation settings.printer settings.base_url form row.submission ≡ some o
      → In row.id
          (delivered (publish_pending settings now form_id ptolemy form author target w).1.trace)
  unfolding publish_pending
  pending_delivered ptolemy form author target w response row o p h i f e =
      let (n, done, _, whole) =
        continue-ok (run_batches settings now form_id ptolemy form author target w) _ response h in
      let d = ran settings now form_id ptolemy form author target w p in
      rw (whole, d.complete n done, all_ids-batches settings now form_id form w)
        (elim (Bool-cases (is_published w.state.db.published row.id)) [
          | inl b ↦
              In-append_left row.id (delivered w.trace) _
                (rw (← p.ledger.same) (In-ids_of row.id w.state.db.published b))
          | inr b ↦ In-append_right row.id (delivered w.trace) _ (
              In-sent_ids settings form form_id w.state.db.published w.state.db.submissions row o i
                (All-In (λ r. r.id ≡ r.submission.id) w.state.db.submissions p.own_ids i) f b e)
        ])

  -- After a publish that ends well, every stored submission of the form that has a geometry is among
  -- the accepted features.
  pub publish_complete :
      (caller : Caller) (token : Option String) (w : World) (response : PublishResponse)
      (form : Form) (row : SubmissionRow) (o : InsertOperation)
      → IsPublishable w
      → (publish settings now form_id caller token w).0 ≡ ok response
      → get_form form_id w.state.db ≡ some form
      → In row w.state.db.submissions
      → row.form_id ≡ form_id
      → insert_operation settings.printer settings.base_url form row.submission ≡ some o
      → In row.id (delivered (publish settings now form_id caller token w).1.trace)
  unfolding publish
  publish_complete caller token w response form row o p h live i f e =
      let (_, _, h1, e1) = continue-ok (require_owner caller form_id w.state.db, w) _ response h in
      let (base, _, h2, e2) = continue-ok (or_fail settings.ptolemy_url _ _, w) _ response h1 in
      let (bearer, _, h3, e3) = continue-ok (or_fail token _ _, w) _ response h2 in
      let (found, g, h4, e4) =
        continue-ok (or_fail (get_form form_id w.state.db) _ _, w) _ response h3 in
      let author = settings.service.show_uuid caller.id in
      let aim = publish_target form_id w.state.db in
      let aimed = target_or_create settings now form_id (new base bearer) found author aim w in
      let (target, _, h5, e5) = continue-ok aimed _ response h4 in
      let q = target-Quiet settings now form_id (new base bearer) found author aim w in
      let same : found ≡ form =
        some_inj (sym (or_fail-ok (get_form form_id w.state.db) _ _ found g) ∙ live) in
      subst (λ (r : Reply PublishResponse × World). In row.id (delivered r.1.trace))
        (sym (e1 ∙ e2 ∙ e3 ∙ e4 ∙ e5))
        (pending_delivered (new base bearer) found author target aimed.1 response row o
          (Quiet-IsPublishable q p) h5 (rw (q.submissions) i) ((==_iff row.form_id form_id).1 f)
          (rw same e))
