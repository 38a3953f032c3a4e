-- ===== src/Publish/Once.antt =====
-- Runs of `publish` of crates/collecta-server/src/publish.rs against a geodatabase that may answer
-- anything: the store records what was accepted, nothing is delivered twice, and a run that ends well
-- delivers everything.
use collecta.Prelude.{
  ℕ, String, Option, none, some, List, [], ◌∷◌, ◌++◌, ◌≡◌, refl, ap, sym, ◌∙◌, true≢false, map, All,
  inl, inr,
}
use collecta.Values.{Uuid, Instant}
use collecta.Form.{Form}
use collecta.Server.{SubmissionRow, PublishTarget}
use collecta.Server.Auth.{Caller, Reply, ok, fail, or_fail}
use collecta.Server.FormTable.{get_form}
use collecta.Server.Handlers.{require_owner}
use collecta.Server.PublishTable.{unpublished_submissions, publish_target, set_publish_target}
use collecta.Publish.Feature.{InsertOperation}
use collecta.Publish.Client.{
  World, Call, Service, Ptolemy, Request, list_branches, create_branch, continue, exchange, branch,
  create_target, or_create, named_id, new,
}
use collecta.Publish.Fresh.{NoDup, NoDup-append, ids_of, is_published-In}
use collecta.Publish.Run.{
  Settings, operations_of, chunks, batch_size, publish_batches, keep_target, target_or_create,
  publish_pending, publish,
}
use collecta.Publish.Pending.{all_ids-chunks, sent_ids, sent_ids-In, sent_ids-NoDup}
use collecta.Publish.Delivery.{
  all_ids, carried, delivered, InLedger, Delivered, exchange-cases, publish_batches_lem,
}

-- The store records what was delivered, once each, and has each submission under its own id, once.
pub record IsPublishable (w : World) : Type 0 where
  pub ledger : InLedger w
  pub distinct : NoDup (map (λ (r : SubmissionRow). r.id) w.state.db.submissions)
  pub own_ids : All (λ row. row.id ≡ row.submission.id) w.state.db.submissions

-- A step that leaves what publishing reads and delivers nothing.
pub record Quiet (w : World) (v : World) : Type 0 where
  pub published : v.state.db.published ≡ w.state.db.published
  pub submissions : v.state.db.submissions ≡ w.state.db.submissions
  pub deliveries : delivered v.trace ≡ delivered w.trace

Quiet-refl : (w : World) → Quiet w w
Quiet-refl w = record { published = refl; submissions = refl; deliveries = refl }

Quiet-trans : {u v w : World} → Quiet u v → Quiet v w → Quiet u w
Quiet-trans x y = record {
  published = y.published ∙ x.published;
  submissions = y.submissions ∙ x.submissions;
  deliveries = y.deliveries ∙ x.deliveries;
}

pub Quiet-IsPublishable : {w v : World} → Quiet w v → IsPublishable w → IsPublishable v
Quiet-IsPublishable q p = record {
  ledger = record {
    same = ap ids_of (q.published) ∙ p.ledger.same ∙ sym (q.deliveries);
    once = rw (q.deliveries) (p.ledger.once);
  };
  distinct = rw (q.submissions) (p.distinct);
  own_ids = rw (q.submissions) (p.own_ids);
}

module _ {A B : Type 0} where
  continue-Quiet :
      (w : World) (r : Reply A × World) (k : A → Call B)
      → Quiet w r.1
      → ((a : A) (v : World) → Quiet v (k a v).1)
      → Quiet w (continue r k).1
  continue-Quiet w (ok a, v) k q f = Quiet-trans q (f a v)
  continue-Quiet w (fail s m, v) k q f = q

  -- A property that quiet steps keep and the rest establishes.
  continue-keeps :
      (P : World → Type 0) (r : Reply A × World) (k : A → Call B)
      → P r.1
      → ((a : A) → r.0 ≡ ok a → P (k a r.1).1)
      → P (continue r k).1
  continue-keeps P (ok a, v) k p f = f a refl
  continue-keeps P (fail s m, v) k p f = p

module _ (service : Service) (ptolemy : Ptolemy) where
  exchange-Quiet :
      (request : Request) (w : World)
      → carried request ≡ []
      → Quiet w (exchange service ptolemy request w).1
  exchange-Quiet request w none_carried = elim (exchange-cases service ptolemy request w) [
    | inl (v, t, e, d) ↦ rw e (record {
      published = refl;
      submissions = refl;
      deliveries = d ∙ rw none_carried (append_nil (delivered w.trace));
    })
    | inr (s, m, t, e, d) ↦ rw e (record { published = refl; submissions = refl; deliveries = d })
  ]
    where
      append_nil : (xs : List Uuid) → xs ++ [] ≡ xs
      append_nil [] = refl
      append_nil (x ∷ xs) = ap (λ r. x ∷ r) (append_nil xs)

  branch-Quiet :
      (dataset : Uuid) (author : String) (w : World)
      → Quiet w (branch service ptolemy dataset author w).1
  unfolding branch
  branch-Quiet dataset author w =
      continue-Quiet w (exchange service ptolemy (list_branches dataset) w) _
        (exchange-Quiet (list_branches dataset) w refl)
        (λ listed v. created (named_id service listed "main") v)
    where
      created :
          (found : Option Uuid) (v : World)
          → Quiet v (or_create service ptolemy dataset author found v).1
      created (some id) v = Quiet-refl v
      created none v =
          continue-Quiet v (exchange service ptolemy (create_branch dataset "main" author) v) _
            (exchange-Quiet (create_branch dataset "main" author) v refl) (λ c u. Quiet-refl u)

  create_target-Quiet :
      (form : Form) (author : String) (w : World)
      → Quiet w (create_target service ptolemy form author w).1
  unfolding create_target
  create_target-Quiet form author w =
      continue-Quiet w (exchange service ptolemy _ w) _ (exchange-Quiet _ w refl) (λ created v.
        continue-Quiet v _ _ (Quiet-refl v) (λ dataset u.
          continue-Quiet u (exchange service ptolemy _ u) _ (exchange-Quiet _ u refl) (λ _ t.
            continue-Quiet t (branch service ptolemy dataset author t) _
              (branch-Quiet dataset author t) (λ id x. Quiet-refl x))))

module _ (settings : Settings) (now : Instant) (form_id : Uuid) where
  keep_target-Quiet :
      (target : PublishTarget) (w : World) → Quiet w (keep_target settings now form_id target w).1
  unfolding set_publish_target
  keep_target-Quiet target w = record { published = refl; submissions = refl; deliveries = refl }

  pub target-Quiet :
      (ptolemy : Ptolemy) (form : Form) (author : String) (found : Option PublishTarget) (w : World)
      → Quiet w (target_or_create settings now form_id ptolemy form author found w).1
  target-Quiet ptolemy form author (some target) w = Quiet-refl w
  target-Quiet ptolemy form author none w =
      continue-Quiet w (create_target settings.service ptolemy form author w) _
        (create_target-Quiet settings.service ptolemy form author w)
        (λ target v. keep_target-Quiet target v)

  -- The operations of a run.
  abbrev pub batches : Form → World → List (List InsertOperation)
  batches form w =
      chunks batch_size (operations_of settings form (unpublished_submissions form_id w.state.db))

  abbrev pub ids_to_send : Form → World → List Uuid
  ids_to_send form w = sent_ids settings form form_id w.state.db.published w.state.db.submissions

  pub all_ids-batches : (form : Form) (w : World) → all_ids (batches form w) ≡ ids_to_send form w
  unfolding unpublished_submissions
  all_ids-batches form w = all_ids-chunks batch_size _

  -- What is about to be sent is not recorded, and no id comes twice.
  fresh :
      (form : Form) (w : World)
      → IsPublishable w
      → NoDup (delivered w.trace ++ all_ids (batches form w))
  fresh form w p = rw (all_ids-batches form w) (
      NoDup-append (delivered w.trace) (ids_to_send form w) p.ledger.once
        (sent_ids-NoDup settings form form_id w.state.db.published w.state.db.submissions p.own_ids
          p.distinct)
        (λ x i j.
          let waits =
            (sent_ids-In settings form form_id w.state.db.published w.state.db.submissions x
              p.own_ids i).1 in
          true≢false (sym (is_published-In x w.state.db.published (rw (p.ledger.same) j)) ∙ waits)))

  module _ (ptolemy : Ptolemy) (form : Form) (author : String) (target : PublishTarget) where
    abbrev pub run_batches : World → Reply ℕ × World
    run_batches w =
        publish_batches settings now form_id ptolemy target.branch_id form.title author 0
          (batches form w) w

    pub ran : (w : World) → IsPublishable w → Delivered (all_ids (batches form w)) w (run_batches w)
    ran w p =
        publish_batches_lem settings now form_id ptolemy target.branch_id form.title author
          (batches form w) 0 w p.ledger (fresh form w p)

    publish_pending-IsPublishable :
        (w : World)
        → IsPublishable w
        → IsPublishable (publish_pending settings now form_id ptolemy form author target w).1
    unfolding publish_pending
    publish_pending-IsPublishable w p =
        let d = ran w p in
        let kept : IsPublishable (run_batches w).1 = record {
          ledger = d.ledger;
          distinct = rw (d.submissions) (p.distinct);
          own_ids = rw (d.submissions) (p.own_ids);
        } in
        continue-keeps IsPublishable (run_batches w) _ kept (λ n e. kept)

  -- Whatever the geodatabase answers and however the run ends, a publish keeps this true: the store
  -- records exactly the features that were accepted, in their order, none was accepted twice, and each
  -- submission is stored once, under its own id.
  pub publish-IsPublishable :
      (caller : Caller) (token : Option String) (w : World)
      → IsPublishable w
      → IsPublishable (publish settings now form_id caller token w).1
  unfolding publish
  publish-IsPublishable caller token w p =
      continue-keeps IsPublishable (require_owner caller form_id w.state.db, w) _ p
        (λ _ _.
          continue-keeps IsPublishable (or_fail settings.ptolemy_url _ _, w) _ p
            (λ base _.
              continue-keeps IsPublishable (or_fail token _ _, w) _ p
                (λ bearer _.
                  continue-keeps IsPublishable (or_fail (get_form form_id w.state.db) _ _, w) _ p
                    (λ form _.
                      let author = settings.service.show_uuid caller.id in
                      let found = publish_target form_id w.state.db in
                      let q = target-Quiet (new base bearer) form author found w in
                      continue-keeps IsPublishable
                        (target_or_create settings now form_id (new base bearer) form author found
                          w)
                        _ (Quiet-IsPublishable q p)
                        (λ target _.
                          publish_pending-IsPublishable (new base bearer) form author target _
                            (Quiet-IsPublishable q p))))))
