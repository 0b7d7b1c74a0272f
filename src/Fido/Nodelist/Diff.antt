-- ===== src/Fido/Nodelist/Diff.antt =====
-- internal/fido/nodelistdiff.go: `ApplyNodelistDiff`, as the statements that it executes.
pub mod Entries
use virt_bbs.Prelude.{ℕ, suc, Option, none, some, List, [], ◌∷◌, Bytes, ◌==◌, if◌then◌else◌}
use virt_bbs.Fido.Address.{Addr, Reading, address, refused, parse_addr}
use virt_bbs.Fido.Strings.{trim_space}
use virt_bbs.Fido.Nodelist.{NodeEntry, Current, LineResult, entry, line_error, parse_nodelist_line}

-- The calls that change the table of the nodes, `DeleteAddr` and `UpsertLocalNode`.
pub data Statement : Type 0 where
  delete_addr : Bytes → Addr → Statement
  upsert_local_node : NodeEntry → Statement

abbrev deletion : Bytes → Reading → Option Statement
deletion network (address a) = some (delete_addr network a)
deletion network (refused _ _ _) = none

abbrev addition : LineResult → Current → Option Statement × Current
addition (entry e next) current = (some (upsert_local_node e), next)
addition (line_error _) current = (none, current)

-- What a line without blanks around it asks for, and the zone and the net behind it.
unfoldable pub read_line : Bytes → Bytes → Current → Option Statement × Current
read_line network [] current = (none, current)
read_line network (c ∷ s) current =
    if c == b';'
    then (none, current)
    else if c == b'-'
    then (deletion network (parse_addr trim_space s), current)
    else addition (parse_nodelist_line (c ∷ s) network current) current

module _ {Db : Type 0} (exec : Statement → Db → Option Db) where
  -- The database with the number of the changes; or as it was when a statement failed.
  pub data Outcome : Type 0 where
    changed : ℕ → Db → Outcome
    failed : Db → Outcome

  -- The loop over the lines. `exec` is the database: `none` is the error of a statement.
  unfoldable pub apply_lines : Bytes → List Bytes → Current → ℕ → Db → Outcome
  apply_lines network [] current n db = changed n db
  apply_lines network (line ∷ lines) current n db =
      let (statement, next) = read_line network (trim_space line) current in
      elim statement [
        | none ↦ apply_lines network lines next n db
        | some st ↦ elim (exec st db) [
          | none ↦ failed db
          | some after ↦ apply_lines network lines next (suc n) after
        ]
      ]
