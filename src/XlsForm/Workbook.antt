-- ===== src/XlsForm/Workbook.antt =====
-- `parse_reader` and `read_choice_lists` of crates/collecta-xlsform/src/lib.rs. A workbook is the list
-- of its sheets; one that cannot be read is left out.
use collecta.Prelude.{
  ℕ, String, Option, none, some, List, [], ◌∷◌, ◌++◌, eq_ignore_case, if◌then◌else◌,
}
use collecta.Values.{Uuid}
use collecta.Form as Form
use collecta.Form.{Form, Choice, Fields}
use collecta.Rosa.Result.{Result, ok, ◌>>=◌, or_err}
use collecta.XlsForm.{
  XlsformError, Cell, Record, lookup, put, filled, read_records, missing_survey_sheet,
}
use collecta.XlsForm.Relevant.{Numbers}
use collecta.XlsForm.Survey.{ChoiceLists, parse_survey, or_default}

abbrev pub Sheet : Type 0
Sheet = List (List Cell)

-- `sheet_range`
unfoldable pub sheet_range : String → List (String × Option Sheet) → Option Sheet
sheet_range name [] = none
sheet_range name ((title, sheet) ∷ rest) =
    if eq_ignore_case title name then sheet else sheet_range name rest

abbrev or_other : Option String → Option String → Option String
or_other none o = o
or_other (some s) o = some s

-- `lists.entry(list).or_default().push(choice)`
abbrev add_choice : Option String → Option String → Option String → ChoiceLists → ChoiceLists
add_choice (some list) (some value) label lists =
    put list
      (or_default [] (lookup list lists)
        ++ (record { value = value; label = or_default value label } ∷ []))
      lists
add_choice _ _ label lists = lists

-- The loop over the records
unfoldable pub add_choices : List Record → ChoiceLists → ChoiceLists
unfolding lookup put
add_choices [] lists = lists
add_choices (rec ∷ rest) lists = add_choices rest (
    add_choice (filled (or_other (lookup "list_name" rec) (lookup "list name" rec)))
      (filled (lookup "name" rec)) (filled (lookup "label" rec)) lists)

abbrev records_of : Option Sheet → List Record
records_of none = []
records_of (some sheet) = read_records sheet

unfoldable pub read_choice_lists : Option Sheet → ChoiceLists
unfolding add_choices read_records
read_choice_lists sheet = add_choices (records_of sheet) []

abbrev first_record : List Record → Record
first_record [] = []
first_record (rec ∷ rest) = rec

abbrev set_version : Option ℕ → Form → Form
set_version none form = form
set_version (some version) form = record form { version = version }

abbrev parsed : {A : Type 0} → (String → Option A) → Option String → Option A
parsed parse none = none
parsed parse (some s) = parse s

-- `parse_reader` once the workbook is open. `parse_u32` is the standard library's.
unfoldable pub parse_workbook :
    Numbers
    → (parse_u32 : String → Option ℕ) → (id : Uuid) → List (String × Option Sheet)
    → Result XlsformError Form
unfolding sheet_range read_choice_lists read_records lookup Form.new parse_survey
parse_workbook numbers parse_u32 id workbook =
    or_err (sheet_range "survey" workbook) missing_survey_sheet >>= λ survey.
    let settings = first_record (records_of (sheet_range "settings" workbook)) in
    let title = or_default "Imported Form" (filled (lookup "form_title" settings)) in
    let form = set_version (parsed parse_u32 (lookup "version" settings)) (Form.new id title) in
    parse_survey numbers (read_choice_lists (sheet_range "choices" workbook)) (read_records survey)
    >>= λ fields. ok (record form { fields = fields })
