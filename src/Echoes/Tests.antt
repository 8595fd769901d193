-- ===== src/Echoes/Tests.antt =====
-- The list of areas at a concrete input.
use ii_go.Base.{Bytes, codes, ok, ◌≡◌, refl, false, some, [], ◌∷◌, map, arith}
use ii_go.Strings.{join, has_prefix}
use ii_go.Dict
use ii_go.Db.State.Files.{text_of}
use ii_go.Echoes.{Edb, load_echolist}
use ii_go.Echoes.Laws.{Area, name_column, area_line, IsArea, last_perm, load_echolist-area_line}

abbrev news : Area
news = record {
  name = codes "ii.news";
  perm = record { allow = codes "node,1" ∷ []; write = false };
  size = codes "7";
  about = codes "News";
}

news-IsArea : IsArea news
unfolding name_column area_line join has_prefix
news-IsArea = record {
  name_mark = omega arith;
  name_sign = refl;
  allow_mark = (omega arith, tt);
  column = omega arith;
  size_column = omega arith;
  line = omega arith;
}

load_echolist-area_line_example :
    (db : Edb Bytes) × (load_echolist (some (text_of (map area_line (news ∷ [])))) ≡ ok db)
    × (db.list ≡ map (λ (a : Area). a.name) (news ∷ []))
    × ((e : Bytes) → Dict.get db.perm e ≡ last_perm e (news ∷ []))
load_echolist-area_line_example = load_echolist-area_line Bytes (news ∷ []) (news-IsArea, tt)
