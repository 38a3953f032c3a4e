-- ===== src/XlsForm.antt =====
-- crates/collecta-xlsform/src/lib.rs: the import of a form from the rows of a spreadsheet. The workbook
-- reader is another crate: a sheet is the list of its rows of cells.
pub mod Relevant
pub mod Survey
pub mod Workbook
mod Tests
use collecta.Prelude.{
  ℕ, String, Bool, true, false, ◌||◌, not, Option, none, some, List, [], ◌∷◌, ◌++◌, ◌+++◌, str_eq,
  trim, show_ℕ, if◌then◌else◌,
}

pub data XlsformError : Type 0 where
  workbook : String → XlsformError
  missing_survey_sheet : XlsformError
  unsupported_type : (row : ℕ) (type_token : String) → XlsformError
  missing_name : (row : ℕ) → XlsformError
  missing_choice_list : (row : ℕ) (list_name : String) → XlsformError
  unbalanced_group : XlsformError

-- `Display::fmt`
unfoldable pub show_error : XlsformError → String
unfolding show_ℕ
show_error (workbook message) = "xlsx read error: " +++ message
show_error missing_survey_sheet = "xlsform has no 'survey' sheet"
show_error (unsupported_type row type_token) =
    "unsupported type '" +++ (type_token +++ ("' at survey row " +++ show_ℕ row))
show_error (missing_name row) = "missing name at survey row " +++ show_ℕ row
show_error (missing_choice_list row list_name) =
    "choice list '" +++ (list_name +++ ("' at survey row " +++ (show_ℕ row +++ " not found")))
show_error unbalanced_group = "unbalanced begin/end group or repeat"

-- A cell: empty, a text, or another value with what it prints as.
pub data Cell : Type 0 where
  blank : Cell
  written : String → Cell
  other : String → Cell

unfoldable pub cell_text : Cell → String
unfolding trim
cell_text blank = ""
cell_text (written s) = trim s
cell_text (other s) = trim s

-- `BTreeMap<String, String>`
abbrev pub Record : Type 0
Record = List (String × String)

unfoldable pub lookup : {A : Type 0} → String → List (String × A) → Option A
lookup key [] = none
lookup key ((k, v) ∷ rest) = if str_eq k key then some v else lookup key rest

unfoldable pub put : {A : Type 0} → String → A → List (String × A) → List (String × A)
put key value [] = (key, value) ∷ []
put key value ((k, v) ∷ rest) =
    let later = put key value rest in if str_eq k key then (k, value) ∷ rest else (k, v) ∷ later

-- The loop over the cells of a row, under the headers; a cell with no header is passed over.
unfoldable pub read_row : List String → List Cell → Record × Bool → Record × Bool
unfolding put cell_text
read_row [] cells so_far = so_far
read_row (key ∷ header) [] so_far = so_far
read_row (key ∷ header) (cell ∷ cells) (rec, any) = read_row header cells (
    if str_eq key ""
    then (rec, any)
    else (put key (cell_text cell) rec, any || not (str_eq (cell_text cell) "")))

abbrev keep_record : Record × Bool → List Record → List Record
keep_record (rec, true) rest = rec ∷ rest
keep_record (rec, false) rest = rest

unfoldable pub read_rows_under : List String → List (List Cell) → List Record
unfolding read_row
read_rows_under header [] = []
read_rows_under header (cells ∷ rest) =
    keep_record (read_row header cells ([], false)) (read_rows_under header rest)

abbrev cell_texts : List Cell → List String
cell_texts [] = []
cell_texts (c ∷ rest) = cell_text c ∷ cell_texts rest

unfoldable pub read_records : List (List Cell) → List Record
unfolding read_rows_under cell_text
read_records [] = []
read_records (header ∷ rows) = read_rows_under (cell_texts header) rows

-- `filter(|s| !s.is_empty())`
abbrev pub filled : Option String → Option String
filled none = none
filled (some s) = if str_eq s "" then none else some s
