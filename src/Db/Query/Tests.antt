-- ===== src/Db/Query/Tests.antt =====
-- Queries at concrete inputs.
use ii_go.Base.{
  if◌then◌else◌, take, drop, Bytes, codes, str_eq, pos, is_neg, abs, ◌≡◌, refl, false, none, [],
  ◌∷◌, reverse,
}
use ii_go.Msg.Valid.{is_private}
use ii_go.Strings.{has_prefix}
use ii_go.Db.Index.{MsgInfo}
use ii_go.Db.Query.{
  Query, access, fits, count_match, Rows, limit, match_row, match_info, select_front, select_rows,
}
use ii_go.Db.Query.Laws.{hits, select_rows-hits}

abbrev info_of : Bytes → MsgInfo
info_of id = record {
  num = 0;
  id = id;
  echo = codes "std.test";
  to = codes "All";
  off = pos 0;
  repto = [];
  from = codes "Peter";
  topic = [];
}

abbrev two_rows : Rows
two_rows = (codes "a", info_of (codes "a")) ∷ (codes "b", info_of (codes "b")) ∷ []

abbrev second : Query
second = record {
  echo = codes "std.test";
  repto = [];
  from = [];
  to = [];
  start = pos 0;
  lim = pos 0;
  skip = pos 1;
  count = pos 1;
  blacklisted = false;
  no_access = false;
  user = [];
  invert = false;
}

select_rows-hits_example :
    select_rows none second two_rows
    ≡ limit second.lim (
        if is_neg second.start
        then reverse (take (abs second.start) (hits none second (reverse two_rows)))
        else drop (abs second.start) (hits none second two_rows))
select_rows-hits_example = select_rows-hits none second two_rows

-- The second of two messages is found.
select_second : select_rows none second two_rows ≡ codes "b" ∷ []
unfolding select_rows select_front match_info match_row fits access count_match is_private
    has_prefix str_eq
select_second = refl
