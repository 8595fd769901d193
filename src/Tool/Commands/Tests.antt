-- ===== src/Tool/Commands/Tests.antt =====
-- The theorems on the commands of the tool at concrete inputs.
use mathlib.Core.List.{Perm}
use ii_go.Base.{Bytes, codes, str_eq, pos, ok, ℕ, ◌≡◌, refl, true, false, none, some, List, [], ◌∷◌}
use ii_go.Dict
use ii_go.Msg.Encode.{Msg}
use ii_go.Msg.Tests.{no_digest, sample}
use ii_go.Db.Index.{MsgInfo}
use ii_go.Db.Access.{visible}
use ii_go.Db.Topics.{Hash, parent_of}
use ii_go.Db.Log.Keeps.{Synced}
use ii_go.Db.Log.Names.{name-store_with}
use ii_go.Db.Tests.{fresh, stored, stored-IsSynced}
use ii_go.Tool.Commands.{topic_root, sort}
use ii_go.Tool.Commands.Sorted.{IsOrdered}
use ii_go.Tool.Commands.Printed.{msgs_of, sort-IsOrdered}
use ii_go.Tool.Commands.Endless.{topic_root-none}

named_node : stored.name ≡ codes "node"
named_node = name-store_with no_digest (pos 5) sample false fresh

abbrev asked_ids : List Bytes
asked_ids = sample.msg_id ∷ codes "gone" ∷ sample.msg_id ∷ []

sort-IsOrdered_example :
    (ms : List Msg) × ((sort no_digest true asked_ids stored).0 ≡ ok ms)
    × Synced (sample ∷ []) (codes "node") (sort no_digest true asked_ids stored).1
    × Perm ms (msgs_of no_digest (sample ∷ []) (codes "node") asked_ids)
    × IsOrdered true ms
sort-IsOrdered_example =
    sort-IsOrdered no_digest (sample ∷ []) (codes "node") true asked_ids stored
      (stored-IsSynced, named_node)

abbrev reply_of : ℕ → Bytes → Bytes → MsgInfo
reply_of num id repto = record {
  num = num;
  id = id;
  echo = codes "std.test";
  to = codes "All";
  off = pos num;
  repto = repto;
  from = codes "ann";
  topic = [];
}

abbrev loop : Hash
loop =
    (codes "one", reply_of 1 (codes "one") (codes "two"))
    ∷ (codes "two", reply_of 2 (codes "two") (codes "one"))
    ∷ []

parents :
    (parent_of loop (codes "two") ≡ some (reply_of 2 (codes "two") (codes "one")))
    × (parent_of loop (codes "one") ≡ some (reply_of 1 (codes "one") (codes "two")))
unfolding parent_of visible Dict.get str_eq
parents = (refl, refl)

others : (str_eq (codes "two") (codes "one") ≡ false) × (str_eq (codes "one") (codes "two") ≡ false)
unfolding str_eq
others = (refl, refl)

topic_root-none_example :
    topic_root no_digest 1000
      (codes "std.test")
      loop
      (codes "one")
      (some (reply_of 1 (codes "one") (codes "two")))
    ≡ none
topic_root-none_example =
    topic_root-none no_digest (codes "std.test") loop 1000 (codes "one")
      (reply_of 1 (codes "one") (codes "two")) (reply_of 2 (codes "two") (codes "one")) (parents.0)
      (parents.1) (others.0) (others.1)
