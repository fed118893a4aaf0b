-- ===== src/Tests/Statements.antt =====
-- The text of a statement.
use limestone.Prelude.{some, [], ◌∷◌, codes}
use limestone.Statement.{DavQuery}
use limestone.Statement.Fits.{Fits}

abbrev two_marks : DavQuery
two_marks = record {
  query_string = codes "a=? AND b=?";
  parameters = some (codes "'x'") ∷ some (codes "17") ∷ [];
}
