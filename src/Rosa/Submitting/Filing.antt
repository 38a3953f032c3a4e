-- ===== src/Rosa/Submitting/Filing.antt =====
-- What filing keeps: the claim of an instance id and the names of the stored attachments, through
-- `store_attachments` of crates/collecta-server/src/openrosa/submission.rs.
use collecta.Prelude.{
  ℕ, String, Bool, true, false, List, [], ◌∷◌, ◌≡◌, refl, sym, ap, ◌∙◌, any, All, str_eq, ==_self,
  Bool-cases, inl, inr, ◌==◌,
}
use mathlib.Core.Path.{subst}
use collecta.Values.{Uuid}
use collecta.Server.{Db}
use collecta.Server.Auth.{Reply, ok, fail, internal}
use collecta.Server.AttachmentTable.{add_attachment, attached_filenames}
use collecta.Server.Handlers.{State, after_gate}
use collecta.Rosa.Parts.{AttachmentPart}
use collecta.Rosa.Storing.{
  Disk, Names, client_name, attachment_row, store_one, store_each, store_attachments,
  make_directory,
}
use collecta.Rosa.Submitting.Claims.{
  Claimed, Holds, Claimed-add_attachment, Holds-added, Holds-add_attachment,
}

-- What the storing of attachments for one submission keeps.
pub record Grown (id : Uuid) (s t : State) : Type 0 where
  pub forms : s.db.forms ≡ t.db.forms
  pub directories : s.directories ≡ t.directories
  pub claims :
      (form_id : Uuid) (instance_id hash user : String)
      → Claimed form_id instance_id hash user id s.db
      → Claimed form_id instance_id hash user id t.db
  pub holds : (name : String) → Holds id name s.db → Holds id name t.db

Grown-refl : (id : Uuid) (s : State) → Grown id s s
Grown-refl id s = record {
  forms = refl;
  directories = refl;
  claims = λ f i h u c. c;
  holds = λ n h. h;
}

Grown-trans : {id : Uuid} {s t u : State} → Grown id s t → Grown id t u → Grown id s u
Grown-trans x y = record {
  forms = x.forms ∙ y.forms;
  directories = x.directories ∙ y.directories;
  claims = λ f i h u c. y.claims f i h u (x.claims f i h u c);
  holds = λ n h. y.holds n (x.holds n h);
}

module _ (id : Uuid) where
  -- Everything was kept, and when the answer is a count, every attachment is stored.
  abbrev pub StoredAll : List AttachmentPart → State → Reply ℕ × State → Type 0
  StoredAll parts s r =
      Grown id s r.1 × ((m : ℕ) → r.0 ≡ ok m → All (λ a. Holds id (client_name a) r.1.db) parts)

module _ (disk : Disk) (id : Uuid) (already : List String) (names : Names) where
  Grown-added :
      (a : AttachmentPart) (n : ℕ) (s : State)
      → Grown id s
          (record s { db = add_attachment (attachment_row disk id names a (disk.fresh n)) s.db })
  unfolding add_attachment attachment_row
  Grown-added a n s = record {
    forms = refl;
    directories = refl;
    claims = λ f i h u c.
        Claimed-add_attachment (attachment_row disk id names a (disk.fresh n)) f i h u id s.db c;
    holds = λ name h.
        Holds-add_attachment (attachment_row disk id names a (disk.fresh n)) id name s.db refl h;
  }

  known_to : AttachmentPart → Bool
  known_to a = any (λ known. str_eq known (client_name a)) already

  -- One round: what it keeps, and when it succeeds, that the attachment is stored.
  store_one_lem :
      (a : AttachmentPart) (n : ℕ) (s : State)
      → ((name : String) → any (λ known. str_eq known name) already ≡ true → Holds id name s.db)
      → Grown id s (store_one disk id already names a n s).1
        × ((m : ℕ)
            → (store_one disk id already names a n s).0 ≡ ok m
            → Holds id (client_name a) (store_one disk id already names a n s).1.db)
  unfolding store_one attachment_row
  store_one_lem a n s old =
      elim (Bool-cases (any (λ known. str_eq known (client_name a)) already)) [
        | inl k ↦ rw k (Grown-refl id s, λ m h. old (client_name a) k)
        | inr k ↦ elim (Bool-cases (disk.takes_file id (disk.fresh n) a.content)) [
          | inl w ↦
              rw (k, w)
                (
                  Grown-added a n s,
                  λ m h. Holds-added (attachment_row disk id names a (disk.fresh n)) id s.db refl,
                )
          | inr w ↦ rw (k, w) (Grown-refl id s, λ m h. cc)
        ]
      ]

  abbrev rest_stored : List AttachmentPart → Reply ℕ × State → Reply ℕ × State
  rest_stored rest one = after_gate one.0 (store_each disk id already names rest) one.1

  store_each_lem :
      (parts : List AttachmentPart) (n : ℕ) (s : State)
      → ((name : String) → any (λ known. str_eq known name) already ≡ true → Holds id name s.db)
      → StoredAll id parts s (store_each disk id already names parts n s)
  unfolding store_each
  store_each_lem [] n s old = (Grown-refl id s, λ m h. tt)
  store_each_lem (a ∷ rest) n s old =
      let first = store_one_lem a n s old in
      go (store_one disk id already names a n s) first.0 first.1 (λ m t. store_each_lem rest m t)
    where
      go :
          (one : Reply ℕ × State)
          → Grown id s one.1
          → ((m : ℕ) → one.0 ≡ ok m → Holds id (client_name a) one.1.db)
          → ((m : ℕ) (t : State)
              → ((name : String)
                  → any (λ known. str_eq known name) already ≡ true
                  → Holds id name t.db)
              → StoredAll id rest t (store_each disk id already names rest m t))
          → StoredAll id (a ∷ rest) s (rest_stored rest one)
      go (ok m, t) grown stored deeper =
          let later = deeper m t (λ name k. grown.holds name (old name k)) in
          (
            Grown-trans grown later.0,
            λ k h. (later.0.holds (client_name a) (stored m refl), later.1 k h),
          )
      go (fail status message, t) grown stored deeper = (grown, λ m h. cc)

  -- Attachments that are all stored already are passed over.
  pub store_each-known :
      (parts : List AttachmentPart) (n : ℕ) (s : State)
      → All (λ a. any (λ known. str_eq known (client_name a)) already ≡ true) parts
      → store_each disk id already names parts n s ≡ (ok n, s)
  unfolding store_each store_one
  store_each-known [] n s h = refl
  store_each-known (a ∷ rest) n s h = rw (h.0, store_each-known rest n s h.1)

module _ (disk : Disk) (id : Uuid) where
  pub make_directory-twice :
      (s : State) → any (λ d. d == id) s.directories ≡ true → make_directory disk id s ≡ s
  make_directory-twice s h = rw h

  make_directory-made :
      (s : State) → any (λ d. d == id) (make_directory disk id s).directories ≡ true
  make_directory-made s = elim (Bool-cases (any (λ d. d == id) s.directories)) [
    | inl e ↦ rw e e
    | inr e ↦ rw (e, ==_self id)
  ]

  make_directory-db : (s : State) → (make_directory disk id s).db ≡ s.db
  make_directory-db s = elim (Bool-cases (any (λ d. d == id) s.directories)) [
    | inl e ↦ rw e
    | inr e ↦ rw e
  ]

  stored_again :
      (names : Names) (a : AttachmentPart) (rest : List AttachmentPart) (t : State)
      → disk.takes_directory id ≡ true
      → any (λ d. d == id) t.directories ≡ true
      → All (λ b. Holds id (client_name b) t.db) (a ∷ rest)
      → store_attachments disk id names (a ∷ rest) t ≡ (ok 0, t)
  unfolding store_attachments
  stored_again names a rest t takes made stored =
      rw (takes, made)
        (store_each-known disk id (attached_filenames id t.db) names (a ∷ rest) 0 t stored)

  -- The names and claims of a state after a call that succeeds, and that a second one stores nothing more.
  abbrev pub Settled : Names → List AttachmentPart → State → State → Type 0
  Settled later_names parts s after =
      (s.db.forms ≡ after.db.forms)
      × ((form_id : Uuid) (instance_id hash user : String)
          → Claimed form_id instance_id hash user id s.db
          → Claimed form_id instance_id hash user id after.db)
      × (store_attachments disk id later_names parts after ≡ (ok 0, after))

  settled :
      (later_names : Names) (a : AttachmentPart) (rest : List AttachmentPart) (s t : State)
      → disk.takes_directory id ≡ true
      → Grown id (make_directory disk id s) t
      → All (λ b. Holds id (client_name b) t.db) (a ∷ rest)
      → Settled later_names (a ∷ rest) s t
  settled later_names a rest s t takes grown stored = (
    sym (ap (λ (d : Db). d.forms) (make_directory-db s)) ∙ grown.forms,
    λ f i h u c. grown.claims f i h u (subst (Claimed f i h u id) (sym (make_directory-db s)) c),
    stored_again later_names a rest t takes (rw (← grown.directories) (make_directory-made s))
        stored,
  )

  started_at :
      (names : Names) (a : AttachmentPart) (rest : List AttachmentPart) (s : State)
      → disk.takes_directory id ≡ true
      → store_attachments disk id names (a ∷ rest) s
        ≡ store_each disk id
            (attached_filenames id s.db)
            names
            (a ∷ rest)
            0
            (make_directory disk id s)
  unfolding store_attachments
  started_at names a rest s takes = rw takes

  no_directory :
      (names : Names) (a : AttachmentPart) (rest : List AttachmentPart) (s : State)
      → disk.takes_directory id ≡ false
      → store_attachments disk id names (a ∷ rest) s ≡ (fail internal "cannot store attachment", s)
  unfolding store_attachments
  no_directory names a rest s takes = rw takes

  -- After a call that succeeds, a second one with the same attachments stores nothing more.
  pub store_attachments-again :
      (names later_names : Names) (parts : List AttachmentPart) (s : State) (n : ℕ)
      → (store_attachments disk id names parts s).0 ≡ ok n
      → Settled later_names parts s (store_attachments disk id names parts s).1
  store_attachments-again names later_names [] s n h =
      unfold store_attachments in (refl, λ f i h u c. c, refl)
  store_attachments-again names later_names (a ∷ rest) s n h =
      elim (Bool-cases (disk.takes_directory id)) [
        | inr e ↦
            let refused : (let r : Reply ℕ = fail internal "cannot store attachment" in r) ≡ ok n =
              rw (no_directory names a rest s e) at h in
            cc
        | inl e ↦
            let filed =
              store_each_lem disk id (attached_filenames id s.db) names (a ∷ rest) 0
                (make_directory disk id s) (λ name k. rw (make_directory-db s) k) in
            subst (λ (r : Reply ℕ × State). Settled later_names (a ∷ rest) s r.1)
              (sym (started_at names a rest s e))
              (settled later_names a rest s _ e filed.0
                (filed.1 n (rw (started_at names a rest s e) at h)))
      ]
