-- ===== src/Rosa/Submitting/Checks.antt =====
-- What a request that passes the checks of `submit` is, in
-- crates/collecta-server/src/openrosa/submission.rs.
use collecta.Prelude.{
  String, false, Option, none, some, List, [], ◌∷◌, ◌≡◌, refl, ap, ◌∙◌, map, str_eq, trim,
  Bool-cases, Option-cases, inl, inr, some_inj, if◌then◌else◌,
}
use collecta.Values.{Uuid}
use collecta.Form.{Form}
use collecta.Submission.{Submission, mark_complete}
use collecta.Submission as Submission
use collecta.Errors as Errors
use collecta.Errors.{Error}
use collecta.Validation.{validate}
use collecta.Server.{Db}
use collecta.Server.Auth.{Caller, Reply, ok, fail, or_fail, Status, ◌>>=◌, bad_request, not_found}
use collecta.Server.FormTable.{get_form}
use collecta.Rosa.Result.{Result, >>=-ok, ok_inj, or_err}
use collecta.Rosa.Tree.{
  Event, InstanceError, Node, child_of, text_of, missing_form_id, missing_instance_id, parse_tree,
}
use collecta.Rosa.Instance.{Instance, Reader, parse, instance_id_of, form_id_of}
use collecta.Rosa.Mapping.{to_submission}
use collecta.Rosa.Parts.{Bytes, MultipartError, Part, AttachmentPart, read_parts}
use collecta.Rosa.Submitting.{
  Outside, Draw, Ready, may_submit, or_malformed, reject_all, user, check_instance, check_request,
}

pub and_then-ok :
    {A B : Type 0} (m : Reply A) (f : A → Reply B) (b : B)
    → (m >>= f) ≡ ok b
    → (a : A) × (m ≡ ok a) × (f a ≡ ok b)
and_then-ok (ok a) f b h = (a, refl, h)
and_then-ok (fail s m) f b h = cc

or_fail-ok :
    {A : Type 0} (o : Option A) (s : Status) (m : String) (a : A)
    → or_fail o s m ≡ ok a
    → o ≡ some a
or_fail-ok none s m a h = cc
or_fail-ok (some x) s m a h = cc

reject_all-ok : (es : List String) → reject_all es ≡ ok tt → es ≡ []
reject_all-ok [] h = refl
reject_all-ok (e ∷ es) h = cc

no_errors : (es : List Error) → map Errors.show es ≡ [] → es ≡ []
no_errors [] h = refl
no_errors (e ∷ es) h = cc

named_text :
    (s id : String)
    → (let found : Option String = if str_eq s "" then none else some s in found) ≡ some id
    → str_eq id "" ≡ false
named_text s id h = elim (Bool-cases (str_eq s "")) [
  | inl e ↦ let none_some : none ≡ some id = rw e at h in cc
  | inr e ↦ let same : some s ≡ some id = rw e at h in rw (← some_inj same) e
]

instance_id_of-named :
    (root : Node) (id : String) → instance_id_of root ≡ some id → str_eq id "" ≡ false
unfolding instance_id_of
instance_id_of-named root id h = elim (Option-cases (child_of "meta" root)) [
  | inl n ↦ let none_some : none ≡ some id = rw n at h in cc
  | inr (meta, e) ↦ elim (Option-cases (child_of "instanceID" meta)) [
    | inl n ↦ let none_some : none ≡ some id = rw (e, n) at h in cc
    | inr (found, f) ↦ named_text (trim (text_of found)) id (rw (e, f) at h)
  ]
]

or_err-ok : {E A : Type 0} (o : Option A) (e : E) (a : A) → or_err o e ≡ Result.ok a → o ≡ some a
or_err-ok none e a h = cc
or_err-ok (some x) e a h = cc

-- An instance that parses has an instance id.
parse-named :
    (reader : Reader) (events : List Event) (found : Instance)
    → parse reader events ≡ Result.ok found
    → str_eq found.instance_id "" ≡ false
unfolding parse
parse-named reader events found h =
    let (root, r, h1) = >>=-ok (parse_tree reader.entity events) _ found h in
    let (form_id, f, h2) =
      >>=-ok (or_err (form_id_of reader.parse_uuid root) missing_form_id) _ found h1 in
    let (id, i, h3) = >>=-ok (or_err (instance_id_of root) missing_instance_id) _ found h2 in
    let named =
      instance_id_of-named root id (or_err-ok (instance_id_of root) missing_instance_id id i) in
    rw (← ok_inj h3) named

Reply-inj : {A : Type 0} {a b : A} → (let r : Reply A = ok a in r) ≡ ok b → a ≡ b
Reply-inj h = cc

or_malformed-ok :
    {A : Type 0} (r : Result InstanceError A) (a : A) → or_malformed r ≡ ok a → r ≡ Result.ok a
or_malformed-ok (Result.ok x) a h = ap Result.ok (Reply-inj h)
or_malformed-ok (Result.err e) a h = cc

module _ (outside : Outside) (caller : Caller) where
  abbrev pub filled : Draw → Instance → Form → Submission × List String
  filled draw parsed form =
      to_submission outside.platform.floats draw.id draw.started draw.completed parsed form
        (user outside caller)

  -- What is ready to be filed.
  abbrev pub ready_of : Draw → List AttachmentPart → Bytes → Instance → Form → Ready
  ready_of draw attachments xml parsed form = record {
    form = form;
    submission = (filled draw parsed form).0;
    instance_id = parsed.instance_id;
    instance_hash = outside.hash xml;
    attachments = attachments;
  }

  -- A request that passes the checks: its parts, its instance, and the form that it fits.
  pub record Passed (draw : Draw) (body : List (Result MultipartError Part)) (db : Db)
      (ready : Ready) : Type 0 where
    pub writer : may_submit caller ≡ ok tt
    pub xml : Bytes
    pub attachments : List AttachmentPart
    pub parsed : Instance
    pub form : Form
    pub parts : read_parts (none, []) body ≡ ok (some xml, attachments)
    pub instance : parse outside.reader (outside.events xml) ≡ Result.ok parsed
    pub live : get_form parsed.form_id db ≡ some form
    pub coerced : (filled draw parsed form).1 ≡ []
    pub valid : validate outside.platform.floats form (filled draw parsed form).0 ≡ []
    pub same : ready ≡ ready_of draw attachments xml parsed form

  check_instance-ok :
      (draw : Draw) (attachments : List AttachmentPart) (xml : Bytes) (parsed : Instance) (db : Db)
      (ready : Ready)
      → check_instance outside caller draw attachments xml parsed db ≡ ok ready
      → (form : Form) × (get_form parsed.form_id db ≡ some form)
        × ((filled draw parsed form).1 ≡ [])
        × (validate outside.platform.floats form (filled draw parsed form).0 ≡ [])
        × (ready ≡ ready_of draw attachments xml parsed form)
  unfolding check_instance to_submission
  check_instance-ok draw attachments xml parsed db ready h =
      let (form, f, h1) =
        and_then-ok (or_fail (get_form parsed.form_id db) not_found "unknown form") _ ready h in
      let made = (filled draw parsed form) in
      let (_, c, h2) = and_then-ok (reject_all made.1) _ ready h1 in
      let (_, v, h3) =
        and_then-ok (reject_all (map Errors.show (validate outside.platform.floats form made.0))) _
          ready h2 in
      (
        form,
        or_fail-ok (get_form parsed.form_id db) not_found "unknown form" form f,
        reject_all-ok made.1 c,
        no_errors _
            (reject_all-ok (map Errors.show (validate outside.platform.floats form made.0)) v),
        cc,
      )

  pub check_request-ok :
      (draw : Draw) (body : List (Result MultipartError Part)) (db : Db) (ready : Ready)
      → check_request outside caller draw body db ≡ ok ready
      → Passed draw body db ready
  unfolding check_request
  check_request-ok draw body db ready h =
      let (_, w, h1) = and_then-ok (may_submit caller) _ ready h in
      let (read, r, h2) = and_then-ok (read_parts (none, []) body) _ ready h1 in
      let (xml, x, h3) =
        and_then-ok (or_fail read.0 bad_request "missing xml_submission_file part") _ ready h2 in
      let (parsed, p, h4) =
        and_then-ok (or_malformed (parse outside.reader (outside.events xml))) _ ready h3 in
      let found = check_instance-ok draw read.1 xml parsed db ready h4 in
      let some_xml = or_fail-ok read.0 bad_request "missing xml_submission_file part" xml x in
      record {
        writer = w;
        xml = xml;
        attachments = read.1;
        parsed = parsed;
        form = found.0;
        parts = r ∙ ap (λ (o : Option Bytes). ok (o, read.1)) some_xml;
        instance = or_malformed-ok (parse outside.reader (outside.events xml)) parsed p;
        live = found.1;
        coerced = found.2;
        valid = found.3;
        same = found.4;
      }

  -- The same request passes the checks again, whatever is drawn for it, as long as the form stays.
  pub check_request-again :
      (draw later : Draw) (body : List (Result MultipartError Part)) (db after : Db) (ready : Ready)
      (p : Passed draw body db ready)
      → get_form p.parsed.form_id after ≡ get_form p.parsed.form_id db
      → check_request outside caller later body after
        ≡ ok (ready_of later p.attachments p.xml p.parsed p.form)
  unfolding check_request check_instance to_submission validate
  check_request-again draw later body db after ready p kept =
      rw (p.writer, p.parts, p.instance, kept, p.live, p.coerced, p.valid)

  pub Passed-named :
      (draw : Draw) (body : List (Result MultipartError Part)) (db : Db) (ready : Ready)
      → Passed draw body db ready
      → str_eq ready.instance_id "" ≡ false
  Passed-named draw body db ready p =
      rw (p.same) (parse-named outside.reader (outside.events p.xml) p.parsed p.instance)

  -- A filed submission names the caller's account.
  pub Passed-collector :
      (draw : Draw) (body : List (Result MultipartError Part)) (db : Db) (ready : Ready)
      → Passed draw body db ready
      → ready.submission.collector_id ≡ some (user outside caller)
  unfolding to_submission mark_complete Submission.new
  Passed-collector draw body db ready p = rw (p.same)

  pub Passed-id :
      (draw : Draw) (body : List (Result MultipartError Part)) (db : Db) (ready : Ready)
      → Passed draw body db ready
      → ready.submission.id ≡ draw.id
  unfolding to_submission mark_complete Submission.new
  Passed-id draw body db ready p = rw (p.same)

  -- The submission is filed under the id that the form's definition holds.
  pub ready_of-form_id :
      (draw : Draw) (attachments : List AttachmentPart) (xml : Bytes) (parsed : Instance)
      (form : Form)
      → (ready_of draw attachments xml parsed form).submission.form_id ≡ form.id
  unfolding to_submission mark_complete Submission.new
  ready_of-form_id draw attachments xml parsed form = refl

pub get_form-kept : (id : Uuid) (a b : Db) → a.forms ≡ b.forms → get_form id a ≡ get_form id b
unfolding get_form
get_form-kept id a b h = rw h
