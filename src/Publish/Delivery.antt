-- ===== src/Publish/Delivery.antt =====
-- The loop over the batches in crates/collecta-server/src/publish.rs: what the geodatabase accepted is
-- what the store records.
use collecta.Prelude.{
  append_assoc, ℕ, ◌+◌, String, Bool, true, false, ◌&&◌, ◌||◌, ◌+++◌, List, [], ◌∷◌, ◌++◌, ◌≡◌, ◌⊎◌,
  refl, ap, sym, ◌∙◌, length, ltb, leb, ◌==◌, if◌then◌else◌, Bool-cases, inl, inr, arith,
}
use mathlib.Core.Path.{subst}
use collecta.Values.{Uuid, Instant}
use collecta.Server.Auth.{Reply, ok, fail, Status}
use collecta.Server.PublishTable.{record_published}
use collecta.Publish.Json.{Value}
use collecta.Publish.Feature.{InsertOperation}
use collecta.Publish.Client.{
  World, Call, Service, Ptolemy, Request, Sent, Exchange, Trace, commit, unreachable, answered,
  continue, exchange, read, route,
}
use collecta.Publish.Fresh.{NoDup, NoDup-left, ids_of, ids_of-record_rows}
use collecta.Publish.Run.{Settings, feature_ids, publish_batches, commit_message, record_batch}

-- An answer that says yes.
abbrev pub accepts : Sent → Bool
accepts (unreachable e) = false
accepts (answered status body) = leb 200 status && ltb status 300

-- The ids that a request delivers, if it is accepted.
abbrev pub carried : Request → List Uuid
carried (commit branch message author operations) = feature_ids operations
carried _ = []

-- The ids of the features in the accepted commits, in the order of the commits.
abbrev pub delivered : Trace → List Uuid
delivered [] = []
delivered (e ∷ rest) =
    if accepts e.sent then carried e.request ++ delivered rest else delivered rest

delivered-append : (t u : Trace) → delivered (t ++ u) ≡ delivered t ++ delivered u
delivered-append [] u = refl
delivered-append (e ∷ t) u = elim (Bool-cases (accepts e.sent)) [
  | inl a ↦
      rw (a, delivered-append t u)
        (sym (append_assoc (carried e.request) (delivered t) (delivered u)))
  | inr a ↦ rw (a, delivered-append t u)
]

append_nil : {A : Type 0} (xs : List A) → xs ++ [] ≡ xs
append_nil [] = refl
append_nil (x ∷ xs) = ap (λ r. x ∷ r) (append_nil xs)

-- What is recorded is what was delivered.
pub record InLedger (w : World) : Type 0 where
  pub same : ids_of w.state.db.published ≡ delivered w.trace
  pub once : NoDup (delivered w.trace)

fail-ok :
    {A : Type 0} {s : Status} {m : String} {a : A} → ¬ (let r : Reply A = fail s m in r) ≡ ok a
fail-ok h = cc

module _ (service : Service) where
  -- The client takes an answer for a success exactly when it says yes.
  read-accepts :
      (r : String) (sent : Sent)
      → ((v : Value) × (read service r sent ≡ ok v) × (accepts sent ≡ true))
        ⊎ ((s : Status) × (m : String) × (read service r sent ≡ fail s m) × (accepts sent ≡ false))
  unfolding read
  read-accepts r (unreachable e) = inr (_, _, refl, refl)
  read-accepts r (answered status body) = elim (Bool-cases (status == 401 || status == 403)) [
    | inl e ↦ rw e (inr (_, _, refl, refused status e))
    | inr e ↦ elim (Bool-cases (leb 200 status && ltb status 300)) [
      | inl a ↦ rw (e, a) (inl (_, refl, refl))
      | inr a ↦ rw (e, a) (inr (_, _, refl, refl))
    ]
  ]
    where
      refused : (n : ℕ) → (n == 401 || n == 403) ≡ true → (leb 200 n && ltb n 300) ≡ false
      refused n h = ground (arith, h)

  -- A request: what it does to the world, and that it is answered with a value exactly when it is
  -- accepted.
  pub exchange-cases :
      (ptolemy : Ptolemy) (request : Request) (w : World)
      → ((v : Value) × (t : Trace) × (exchange service ptolemy request w
            ≡ (ok v, record w { trace = t }))
          × (delivered t ≡ delivered w.trace ++ carried request))
        ⊎ ((s : Status) × (m : String) × (t : Trace) × (exchange service ptolemy request w
              ≡ (fail s m, record w { trace = t }))
            × (delivered t ≡ delivered w.trace))
  unfolding exchange
  exchange-cases ptolemy request w =
      let url = ptolemy.base +++ route service request in
      let sent = service.serve w.trace url ptolemy.token request in
      let last : Exchange = record {
        url = url;
        token = ptolemy.token;
        request = request;
        sent = sent;
      } in
      elim (read-accepts (route service request) sent) [
        | inl (v, e, a) ↦ inl (
          v,
          w.trace ++ (last ∷ []),
          rw e,
          delivered-append w.trace (last ∷ [])
              ∙ ap (λ r. delivered w.trace ++ r) (rw a (append_nil (carried request))),
        )
        | inr (s, m, e, a) ↦ inr (
          s,
          m,
          w.trace ++ (last ∷ []),
          rw e,
          delivered-append w.trace (last ∷ []) ∙ rw a (append_nil (delivered w.trace)),
        )
      ]

abbrev pub all_ids : List (List InsertOperation) → List Uuid
all_ids [] = []
all_ids (batch ∷ rest) = feature_ids batch ++ all_ids rest

-- What the loop may leave: the ledger holds, the submissions and forms are as they were, and when it
-- answers a number everything was delivered.
pub record Delivered (ids : List Uuid) (w : World) (r : Reply ℕ × World) : Type 0 where
  pub ledger : InLedger r.1
  pub submissions : r.1.state.db.submissions ≡ w.state.db.submissions
  pub forms : r.1.state.db.forms ≡ w.state.db.forms
  pub complete : (m : ℕ) → r.0 ≡ ok m → delivered r.1.trace ≡ delivered w.trace ++ ids

module _ (settings : Settings) (now : Instant) (form_id : Uuid) (ptolemy : Ptolemy) (target : Uuid)
    (title author : String) where
  abbrev commit_of : List InsertOperation → Request
  commit_of batch = commit target (commit_message title (length batch)) author batch

  abbrev then_batches : ℕ → List InsertOperation → List (List InsertOperation) → Value → Call ℕ
  then_batches n batch rest v w =
      publish_batches settings now form_id ptolemy target title author (n + length batch) rest
        (record_batch settings now form_id (feature_ids batch) w).1

  batches-cons :
      (n : ℕ) (batch : List InsertOperation) (rest : List (List InsertOperation)) (w : World)
      → publish_batches settings now form_id ptolemy target title author n (batch ∷ rest) w
        ≡ continue
            (exchange settings.service ptolemy (commit_of batch) w)
            (then_batches n batch rest)
  unfolding publish_batches
  batches-cons n batch rest w = refl

  -- The world after an accepted batch is recorded.
  recorded :
      (batch : List InsertOperation) (t : Trace) (w : World)
      → InLedger w
      → NoDup (delivered w.trace ++ feature_ids batch)
      → delivered t ≡ delivered w.trace ++ feature_ids batch
      → InLedger (record_batch settings now form_id (feature_ids batch) (record w { trace = t })).1
  unfolding record_published
  recorded batch t w l n d = record {
    same =
        ids_of-record_rows form_id now (feature_ids batch) w.state.db.published (rw (l.same) n)
        ∙ ap (λ r. r ++ feature_ids batch) (l.same)
        ∙ sym d;
    once = rw d n;
  }

  recorded-submissions :
      (batch : List InsertOperation) (t : Trace) (w : World)
      → (record_batch settings now form_id
          (feature_ids batch)
          (record w { trace = t })).1.state.db.submissions
        ≡ w.state.db.submissions
  unfolding record_published
  recorded-submissions batch t w = refl

  recorded-forms :
      (batch : List InsertOperation) (t : Trace) (w : World)
      → (record_batch settings now form_id
          (feature_ids batch)
          (record w { trace = t })).1.state.db.forms
        ≡ w.state.db.forms
  unfolding record_published
  recorded-forms batch t w = refl

  -- Whatever the geodatabase answers, the loop keeps the ledger.
  pub publish_batches_lem :
      (batches : List (List InsertOperation)) (n : ℕ) (w : World)
      → InLedger w
      → NoDup (delivered w.trace ++ all_ids batches)
      → Delivered
          (all_ids batches)
          w
          (publish_batches settings now form_id ptolemy target title author n batches w)
  publish_batches_lem [] n w l d =
      unfold publish_batches in
      record {
        ledger = l;
        submissions = refl;
        forms = refl;
        complete = λ m h. sym (append_nil (delivered w.trace));
      }
  publish_batches_lem (batch ∷ rest) n w l d =
      subst (Delivered (feature_ids batch ++ all_ids rest) w) (sym (batches-cons n batch rest w))
        (elim (exchange-cases settings.service ptolemy (commit_of batch) w) [
          | inr (s, m, t, e, same) ↦ rw e (record {
            ledger = record { same = l.same ∙ sym same; once = rw same (l.once) };
            submissions = refl;
            forms = refl;
            complete = λ k h. absurd (fail-ok h);
          })
          | inl (v, t, e, grown) ↦
              let whole =
                rw (← append_assoc (delivered w.trace) (feature_ids batch) (all_ids rest)) at d in
              let next =
                (record_batch settings now form_id (feature_ids batch)
                  (record w { trace = t })).1 in
              let kept =
                recorded batch t w l
                  (NoDup-left (delivered w.trace ++ feature_ids batch) (all_ids rest) whole)
                  grown in
              let later = publish_batches_lem rest (n + length batch) next kept (rw grown whole) in
              rw e (record {
                ledger = later.ledger;
                submissions = later.submissions ∙ recorded-submissions batch t w;
                forms = later.forms ∙ recorded-forms batch t w;
                complete = λ k h.
                    later.complete k h
                    ∙ ap (λ r. r ++ all_ids rest) grown
                    ∙ append_assoc (delivered w.trace) (feature_ids batch) (all_ids rest);
              })
        ])
