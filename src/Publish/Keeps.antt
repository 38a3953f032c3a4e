-- ===== src/Publish/Keeps.antt =====
-- What a publish of crates/collecta-server/src/publish.rs leaves of the forms and the submissions.
use collecta.Prelude.{
  String, Option, none, some, List, [], ◌∷◌, ◌≡◌, refl, ◌∙◌, map, All, is_some, ◌==◌, Bool-cases,
  inl, inr, arith, ℕ, ◌+◌, length,
}
use collecta.Values.{Uuid, Instant}
use collecta.Form.{Form}
use collecta.Server.{FormRow, PublishTarget}
use collecta.Server.Auth.{Caller, Reply, ok, fail, or_fail}
use collecta.Server.FormTable.{get_form, live_row}
use collecta.Server.PublishTable.{aim, publish_target, set_publish_target, record_published}
use collecta.Server.Handlers.{State, require_owner}
use collecta.Server.Ingest.{Attribution, RowOk, All-imp}
use collecta.Server.Keyed.{Distinct, has_row}
use collecta.Server.Filed.{IsFiled}
use collecta.Publish.Feature.{InsertOperation, dataset_geometry_type, schema_fields}
use collecta.Publish.Client.{
  World, Call, Service, Ptolemy, Request, list_branches, create_branch, continue, exchange, branch,
  create_target, create_dataset, put_schema, id_of, route, or_create, named_id, new,
}
use collecta.Publish.Run.{Settings, publish_batches, target_or_create, publish_pending, publish}

module _ (form_id : Uuid) (target : PublishTarget) where
  live_row-aim :
      (id : Uuid) (rows : List FormRow)
      → is_some (live_row id (map (aim form_id target) rows)) ≡ is_some (live_row id rows)
  live_row-aim id [] = refl
  live_row-aim id (row ∷ rows) = ground (arith, live_row-aim id rows)

  has_row-aim :
      (id : Uuid) (rows : List FormRow)
      → has_row id (map (aim form_id target) rows) ≡ has_row id rows
  has_row-aim id [] = refl
  has_row-aim id (row ∷ rows) = ground (arith, has_row-aim id rows)

  Distinct-aim : (rows : List FormRow) → Distinct rows → Distinct (map (aim form_id target) rows)
  unfolding Distinct
  Distinct-aim [] d = tt
  Distinct-aim (row ∷ rows) d = elim (Bool-cases (row.id == form_id)) [
    | inl e ↦ rw e (has_row-aim row.id rows ∙ d.0, Distinct-aim rows d.1)
    | inr e ↦ rw e (has_row-aim row.id rows ∙ d.0, Distinct-aim rows d.1)
  ]

  own_ids-aim :
      (rows : List FormRow)
      → All (λ row. row.form.id ≡ row.id) rows
      → All (λ row. row.form.id ≡ row.id) (map (aim form_id target) rows)
  own_ids-aim [] h = tt
  own_ids-aim (row ∷ rows) h = elim (Bool-cases (row.id == form_id)) [
    | inl e ↦ rw e (h.0, own_ids-aim rows h.1)
    | inr e ↦ rw e (h.0, own_ids-aim rows h.1)
  ]

-- A world whose submissions are sound and whose forms table is keyed.
record Holds (filed : Attribution) (w : World) : Type 0 where
  holds : IsFiled filed w.state

module _ (filed : Attribution) where
  continue-Holds :
      {A B : Type 0} (r : Reply A × World) (k : A → Call B)
      → Holds filed r.1
      → ((a : A) (w : World) → Holds filed w → Holds filed (k a w).1)
      → Holds filed (continue r k).1
  continue-Holds (ok a, w) k h f = f a w h
  continue-Holds (fail s m, w) k h f = h

  set_publish_target-IsFiled :
      (form_id : Uuid) (target : PublishTarget) (s : State)
      → IsFiled filed s
      → IsFiled filed (record s { db = set_publish_target form_id target s.db })
  unfolding set_publish_target
  set_publish_target-IsFiled form_id target s v = (
    All-imp (RowOk filed s.db.forms) (RowOk filed (map (aim form_id target) s.db.forms))
        s.db.submissions
        (λ row m ok. (ok.0, ok.1, ok.2, live_row-aim form_id target row.form_id s.db.forms ∙ ok.3))
        v.0,
    record {
      distinct = Distinct-aim form_id target s.db.forms v.1.distinct;
      own_ids = own_ids-aim form_id target s.db.forms v.1.own_ids;
    },
  )

  module _ (service : Service) (ptolemy : Ptolemy) where
    exchange-Holds :
        (request : Request) (w : World)
        → Holds filed w
        → Holds filed (exchange service ptolemy request w).1
    unfolding exchange
    exchange-Holds request w h = record { holds = h.holds }

    or_create-Holds :
        (dataset : Uuid) (author : String) (found : Option Uuid) (w : World)
        → Holds filed w
        → Holds filed (or_create service ptolemy dataset author found w).1
    or_create-Holds dataset author (some id) w h = h
    or_create-Holds dataset author none w h =
        continue-Holds (exchange service ptolemy (create_branch dataset "main" author) w) _
          (exchange-Holds (create_branch dataset "main" author) w h) (λ c v k. k)

    branch-Holds :
        (dataset : Uuid) (author : String) (w : World)
        → Holds filed w
        → Holds filed (branch service ptolemy dataset author w).1
    unfolding branch
    branch-Holds dataset author w h =
        continue-Holds (exchange service ptolemy (list_branches dataset) w) _
          (exchange-Holds (list_branches dataset) w h)
          (λ listed v k. or_create-Holds dataset author (named_id service listed "main") v k)

    abbrev dataset_request : Form → String → Request
    dataset_request form author = create_dataset form.title 4326 (dataset_geometry_type form) author

    create_target-Holds :
        (form : Form) (author : String) (w : World)
        → Holds filed w
        → Holds filed (create_target service ptolemy form author w).1
    unfolding create_target
    create_target-Holds form author w h =
        continue-Holds (exchange service ptolemy (dataset_request form author) w) _
          (exchange-Holds (dataset_request form author) w h)
          (λ created v i.
            continue-Holds (id_of service (route service (dataset_request form author)) created, v)
              _ i
              (λ dataset u j.
                continue-Holds
                  (exchange service ptolemy (put_schema dataset (schema_fields form)) u) _
                  (exchange-Holds (put_schema dataset (schema_fields form)) u j)
                  (λ _ t k.
                    continue-Holds (branch service ptolemy dataset author t) _
                      (branch-Holds dataset author t k) (λ id x l. l))))

  module _ (settings : Settings) (now : Instant) (form_id : Uuid) where
    target-Holds :
        (ptolemy : Ptolemy) (form : Form) (author : String) (found : Option PublishTarget)
        (w : World)
        → Holds filed w
        → Holds filed (target_or_create settings now form_id ptolemy form author found w).1
    target-Holds ptolemy form author (some target) w h = h
    target-Holds ptolemy form author none w h =
        continue-Holds (create_target settings.service ptolemy form author w) _
          (create_target-Holds settings.service ptolemy form author w h)
          (λ target v k. record {
            holds = set_publish_target-IsFiled form_id target v.state k.holds;
          })

    batches-Holds :
        (ptolemy : Ptolemy) (branch : Uuid) (title author : String) (n : ℕ)
        (batches : List (List InsertOperation)) (w : World)
        → Holds filed w
        → Holds filed
            (publish_batches settings now form_id ptolemy branch title author n batches w).1
    unfolding publish_batches record_published
    batches-Holds ptolemy branch title author n [] w h = h
    batches-Holds ptolemy branch title author n (batch ∷ rest) w h =
        continue-Holds (exchange settings.service ptolemy _ w) _
          (exchange-Holds settings.service ptolemy _ w h)
          (λ _ v k.
            batches-Holds ptolemy branch title author (n + length batch) rest _
              (record { holds = k.holds }))

    publish_pending-Holds :
        (ptolemy : Ptolemy) (form : Form) (author : String) (target : PublishTarget) (w : World)
        → Holds filed w
        → Holds filed (publish_pending settings now form_id ptolemy form author target w).1
    unfolding publish_pending
    publish_pending-Holds ptolemy form author target w h =
        continue-Holds
          (publish_batches settings now form_id ptolemy target.branch_id form.title author 0 _ w) _
          (batches-Holds ptolemy target.branch_id form.title author 0 _ w h) (λ n v k. k)

    -- Whatever the geodatabase answers and however it ends, a publish keeps the stored submissions
    -- sound and the forms table keyed.
    pub publish-IsFiled :
        (caller : Caller) (token : Option String) (w : World)
        → IsFiled filed w.state
        → IsFiled filed (publish settings now form_id caller token w).1.state
    unfolding publish
    publish-IsFiled caller token w v =
        let author = settings.service.show_uuid caller.id in
        let found = publish_target form_id w.state.db in
        let start : Holds filed w = record { holds = v } in
        let ended : Holds filed (publish settings now form_id caller token w).1 =
          continue-Holds (require_owner caller form_id w.state.db, w) _ start
            (λ _ a h.
              continue-Holds (or_fail settings.ptolemy_url _ _, a) _ h
                (λ base b i.
                  continue-Holds (or_fail token _ _, b) _ i
                    (λ bearer c j.
                      continue-Holds (or_fail (get_form form_id w.state.db) _ _, c) _ j
                        (λ form d k.
                          continue-Holds
                            (target_or_create settings now form_id (new base bearer) form author
                              found d)
                            _ (target-Holds (new base bearer) form author found d k)
                            (λ target e l.
                              publish_pending-Holds (new base bearer) form author target e l))))) in
        ended.holds
