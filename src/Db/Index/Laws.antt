-- ===== src/Db/Index/Laws.antt =====
-- Index lines are read back, and a file read in two parts is the file read at once.
use ii_go.Base.{All, Lacks, IsInt64, ok, ◌≡◌, refl, none, List, [], ◌∷◌, ◌++◌, map}
use ii_go.Strings.Split.{split-join}
use ii_go.Decimal.{print_int}
use ii_go.Decimal.RoundTrip.{scan_int64-print_int, print_int-colon}
use ii_go.Db.Index.{
  Entry, entry_line, with_offset, parse_columns, parse_entry, Table, add_entry, read_lines,
}

-- An entry whose columns hold no colon and no newline.
pub record IsColumns (e : Entry) : Type 0 where
  pub id_column : Lacks b':' e.id × Lacks b'\n' e.id
  pub echo_column : Lacks b':' e.echo × Lacks b'\n' e.echo
  pub off_range : IsInt64 e.off
  pub to_column : Lacks b':' e.to × Lacks b'\n' e.to
  pub from_column : Lacks b':' e.from × Lacks b'\n' e.from
  pub repto_column : Lacks b':' e.repto × Lacks b'\n' e.repto

-- An index line is read back as its columns, if no column holds a colon or a newline and the offset
-- is an int64.
pub parse_entry-entry_line : (e : Entry) → IsColumns e → parse_entry (entry_line e) ≡ ok e
unfolding parse_entry entry_line
parse_entry-entry_line e c =
    rw
      (split-join e.id (e.echo ∷ print_int e.off ∷ e.to ∷ e.from ∷ e.repto ∷ []) b':' (
        c.id_column.0,
        (
          c.echo_column.0,
          (print_int-colon e.off, (c.to_column.0, (c.from_column.0, (c.repto_column.0, tt)))),
        ),
      ))
      (unfold parse_columns with_offset in rw (scan_int64-print_int e.off c.off_range))

-- The table after all entries.
unfoldable pub add_entries : Table → List Entry → Table
add_entries t [] = t
add_entries t (e ∷ es) = add_entries (add_entry t e) es

pub add_entries-append :
    (t : Table) (es fs : List Entry) → add_entries t (es ++ fs) ≡ add_entries (add_entries t es) fs
unfolding add_entries
add_entries-append t [] fs = refl
add_entries-append t (e ∷ es) fs = add_entries-append (add_entry t e) es fs

-- Reading lines that were written gives no error and every entry.
pub read_lines-entry_line :
    (t : Table) (es : List Entry)
    → All IsColumns es
    → read_lines t (map entry_line es) ≡ (add_entries t es, none)
unfolding read_lines add_entries
read_lines-entry_line t [] c = refl
read_lines-entry_line t (e ∷ es) c =
    rw (parse_entry-entry_line e c.0, read_lines) (read_lines-entry_line (add_entry t e) es c.1)
