-- ===== src/Server/Examples.antt =====
-- The laws of the server at a concrete database: account 1 made form 7, and account 2 may read it.
use collecta.Prelude.{
  if◌then◌else◌, ◌==◌, String, true, false, none, some, [], ◌∷◌, ◌≡◌, ◌≢◌, ◌↔◌, refl, arith, map,
  inl,
}
use collecta.Values.{Uuid, empty}
use collecta.Form.{Form, no_fields}
use collecta.Submission.{Submission, SubmissionStatus}
use collecta.Protocol.{PushRequest}
use collecta.Pulled.{PulledForms, apply_pull_response}
use collecta.Pulled.Laws.{lookup}
use collecta.Server.{FormRow, Db, empty_db}
use collecta.Server.Auth.{Caller, Status, editor, ok, fail}
use collecta.Server.FormTable.{
  Cursor, FormWriter, start, insert_form, get_form, form_owner, has_grant,
}
use collecta.Server.SubmissionTable.{
  delete_form, list_submissions, created, existing, insert_instance,
}
use collecta.Server.SubmissionTable
use collecta.Server.Handlers.{
  State, Platform, owns, require_read, require_owner, store_form, submit, remove_form,
  remove_submission, create_grant, revoke_grant, push_all, sync_push, sync_forms,
}
use collecta.Server.Ingest.{IsSound}
use collecta.Server.Instances.{insert_instance-once}
use collecta.Server.Submitting.{Outcome, submit_lem}
use collecta.Server.Runs.{here, next, stored, submitted, filing, FiledBy, Reach-Sound}
use collecta.Server.Idempotence.{again, sync_push-again}
use collecta.Server.Ownership.{row_of, MayWrite, creator, insert_form_lem, creator-insert_form}
use collecta.Server.Tombstones.{delete_form_self, delete_form_ne}
use collecta.Server.Access.{MayChange, MayRead, gates_iff, refused_unchanged}
use collecta.Server.Keyed.{IsKeyed, Distinct}
use collecta.Server.Sync.{Pair, written, none_yet, then_turn, IsSynced, Turns-complete}
use collecta.Server.SameInstant.{same_instant_missed}

abbrev plain_platform : Platform
plain_platform = record {
  floats = record { show = λ _. ""; parse = λ _. none };
  show_uuid = λ id. if id == 1 then "maker" else "guest";
}

abbrev blank : String → Form
blank title = record { id = 7; title = title; description = none; version = 1; fields = no_fields }

abbrev blank_row : FormRow
blank_row = record {
  rowid = 1;
  id = 7;
  form = blank "Survey";
  updated_at = 10;
  creator_id = some 1;
  deleted_at = none;
  target = none;
}

abbrev shared_db : Db
shared_db = record empty_db {
  forms = blank_row ∷ [];
  grants = record { form_id = 7; user_id = 2; granted_at = 11 } ∷ [];
}

abbrev shared_state : State
shared_state = record { db = shared_db; directories = [] }

abbrev maker : Caller
maker = record { id = 1; role = editor }

abbrev guest : Caller
guest = record { id = 2; role = editor }

abbrev own_writer : FormWriter
own_writer = record { id = some 1; overwrite_any = false }

abbrev answers : Submission
answers = record {
  id = 31;
  form_id = 7;
  form_version = 1;
  values = empty;
  started_at = 0;
  completed_at = none;
  device_location = none;
  collector_id = none;
  status = SubmissionStatus.complete;
  attachments = [];
}

abbrev batch : PushRequest
batch = record { submissions = answers ∷ (answers ∷ []) }

abbrev bare_state : State
bare_state = record { db = empty_db; directories = [] }

-- Answers that claim to be of another account than the one that sends them.
abbrev claimed_answers : Submission
claimed_answers = record answers { collector_id = some "guest" }

Reach-Sound_example :
    IsSound
      (FiledBy plain_platform (filing maker claimed_answers ∷ []))
      (submit plain_platform maker 7 claimed_answers
        (store_form maker (blank "Survey") 10 bare_state).1).1.db
unfolding Distinct
Reach-Sound_example =
    Reach-Sound plain_platform {before = []} {s = bare_state} tt
      (record { distinct = tt; own_ids = tt })
      (next (next here (stored bare_state maker (blank "Survey") 10))
        (submitted (store_form maker (blank "Survey") 10 bare_state).1 maker 7 claimed_answers))

sync_push-again_example :
    let later = (sync_push plain_platform guest batch shared_state).1 in
    (sync_push plain_platform guest batch later).1 ≡ later
    × (sync_push plain_platform guest batch later).0
      ≡ ok (record {
        results = map again (push_all plain_platform guest batch.submissions shared_db).1;
      })
sync_push-again_example =
    sync_push-again plain_platform guest batch shared_state
      (sync_push plain_platform guest batch shared_state).1
      (record { forms = refl; ids = λ id h. h })

gates_iff_example :
    (require_owner guest 7 shared_db ≡ ok tt ↔ MayChange guest 7 shared_db)
    × (require_read guest 7 shared_db ≡ ok tt ↔ MayRead guest 7 shared_db)
gates_iff_example = gates_iff guest 7 shared_db

guest_may_not : ¬ MayChange guest 7 shared_db
unfolding require_owner form_owner owns
guest_may_not m = let e = (gates_iff guest 7 shared_db).0.1 m in cc e

refused_unchanged_example :
    (status : Status) × (message : String) × (remove_form guest 7 20 shared_state
      ≡ (fail status message, shared_state))
    × (remove_submission guest 7 31 shared_state ≡ (fail status message, shared_state))
    × (create_grant guest 7 2 20 shared_state ≡ (fail status message, shared_state))
    × (revoke_grant guest 7 2 shared_state ≡ (fail status message, shared_state))
refused_unchanged_example = refused_unchanged guest 7 31 2 20 shared_state guest_may_not

insert_form_lem_example :
    ((insert_form (blank "New") own_writer 20 shared_db).1 ≡ true
      ↔ MayWrite own_writer (row_of 7 shared_db.forms))
    × (MayWrite own_writer (row_of 7 shared_db.forms)
        → get_form 7 (insert_form (blank "New") own_writer 20 shared_db).0 ≡ some (blank "New"))
    × (¬ MayWrite own_writer (row_of 7 shared_db.forms)
        → (insert_form (blank "New") own_writer 20 shared_db).0 ≡ shared_db)
    × ((other : Uuid)
        → other ≢ 7
        → get_form other (insert_form (blank "New") own_writer 20 shared_db).0
          ≡ get_form other shared_db)
insert_form_lem_example = insert_form_lem (blank "New") own_writer 20 shared_db

creator-insert_form_example :
    creator (row_of 7 (insert_form (blank "New") own_writer 20 shared_db).0.forms) ≡ some (some 1)
creator-insert_form_example =
    creator-insert_form (blank "New") own_writer 20 7 shared_db blank_row refl

delete_form_self_example :
    (get_form 7 (delete_form 7 20 shared_db).0 ≡ none)
    × (form_owner 7 (delete_form 7 20 shared_db).0 ≡ none)
    × (list_submissions 7 (delete_form 7 20 shared_db).0 ≡ [])
    × (has_grant 7 2 (delete_form 7 20 shared_db).0 ≡ false)
delete_form_self_example = delete_form_self 7 20 shared_db 2

delete_form_ne_example :
    (get_form 7 (delete_form 8 20 shared_db).0 ≡ get_form 7 shared_db)
    × (form_owner 7 (delete_form 8 20 shared_db).0 ≡ form_owner 7 shared_db)
    × (list_submissions 7 (delete_form 8 20 shared_db).0 ≡ list_submissions 7 shared_db)
    × (has_grant 7 2 (delete_form 8 20 shared_db).0 ≡ has_grant 7 2 shared_db)
delete_form_ne_example = delete_form_ne 8 7 20 shared_db 2 (λ e. omega (arith, e))

abbrev fresh_pair : Pair
fresh_pair = record { client = record { forms = []; cursor = start }; db = empty_db }

abbrev second_pair : Pair
second_pair = record fresh_pair { db = (insert_form (blank "Survey") own_writer 10 empty_db).0 }

fresh_pair-IsSynced : IsSynced fresh_pair
unfolding IsSynced Distinct
fresh_pair-IsSynced = (
  record { distinct = tt; own_ids = tt },
  record { seen = λ row i e. absurd i; foreign = λ id e. refl },
)

Turns-complete_example :
    lookup 7 (apply_pull_response (sync_forms start second_pair.db) second_pair.client).0.forms
    ≡ get_form 7 second_pair.db
Turns-complete_example =
    Turns-complete {s = fresh_pair} {t = second_pair} fresh_pair-IsSynced
      (then_turn none_yet (written fresh_pair (blank "Survey") own_writer 10 (omega arith))) 7

shared_db-IsKeyed : IsKeyed shared_db.forms
unfolding Distinct
shared_db-IsKeyed = record { distinct = (refl, tt); own_ids = (refl, tt) }

abbrev up_to_date : PulledForms Cursor
up_to_date = record { forms = blank "Survey" ∷ []; cursor = record { updated_at = 10; rowid = 1 } }

same_instant_missed_example :
    (get_form 7 (insert_form (blank "New") own_writer 10 shared_db).0 ≡ some (blank "New"))
    × (lookup 7
          (apply_pull_response
            (sync_forms up_to_date.cursor (insert_form (blank "New") own_writer 10 shared_db).0)
            up_to_date).0.forms
        ≡ some (blank "Survey"))
same_instant_missed_example =
    same_instant_missed shared_db up_to_date (blank "New") own_writer blank_row shared_db-IsKeyed
      (inl refl) refl refl (omega arith)

submit_lem_example :
    Outcome plain_platform maker 7 claimed_answers shared_state
      (submit plain_platform maker 7 claimed_answers shared_state)
submit_lem_example = submit_lem plain_platform maker 7 claimed_answers shared_state

abbrev other_answers : Submission
other_answers = record answers { id = 32 }

-- The table after the claim and one more submission, the forms deleted meanwhile.
abbrev later_db : Db
later_db = record empty_db {
  submissions =
      SubmissionTable.row_of answers "uuid:1" "aa"
      ∷ (SubmissionTable.row_of other_answers "" "" ∷ []);
}

insert_instance-once_example :
    ((insert_instance answers "uuid:1" "aa" shared_db).1 ≡ created 31)
    × (insert_instance other_answers "uuid:1" "bb" later_db
        ≡ (later_db, existing (record { submission = answers; instance_hash = "aa" })))
unfolding insert_instance
insert_instance-once_example =
    insert_instance-once answers other_answers "uuid:1" "aa" "bb" shared_db later_db
      (SubmissionTable.row_of other_answers "" "" ∷ []) refl refl refl refl refl
