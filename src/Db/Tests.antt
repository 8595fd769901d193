-- ===== src/Db/Tests.antt =====
-- Runs of the message database, and its theorems at concrete inputs.
use mathlib.Core.Option
use ii_go.Base.{
  if◌then◌else◌, length, Bytes, codes, str_eq, pos, ok, ℕ, ◌^◌, ◌<◌, ◌≡◌, refl, inl, true, false,
  ◌&&◌, not, Option, none, some, List, [], ◌∷◌, ◌++◌, arith,
}
use ii_go.Msg.Tests.{no_digest, sample, raw_text-sample, sample-IsStorable}
use ii_go.Msg.RoundTrip.{bundle_line}
use ii_go.Db.Log.Rows.{Selects, select_ids-IsSynced}
use ii_go.Db.Select.{select_ids}
use ii_go.Db.Query.{Query}
use ii_go.Db.Topics.{Hash, parent_of, Topics, get_topics}
use ii_go.Db.Topics.Ends.{Retopics, IsOrderly, get_topics-ends}
use ii_go.Db.Topics.Loops.{get_topics-none}
use ii_go.Dict
use ii_go.Base64
use ii_go.Db.Index.{MsgInfo, no_index}
use ii_go.Db.State.{Db}
use ii_go.Db.State.Files.{text_of}
use ii_go.Db.Access.{visible, already_exists, lookup_with, get_msg, store_with}
use ii_go.Db.Log.{IsIndexable, bundle_text, IsSynced, latest, is_stored}
use ii_go.Db.Log.Store.{store_with-IsSynced}
use ii_go.Msg.Tags.{get_or_empty}
use ii_go.Db.Load.{load_index}
use ii_go.Db.Log.Load.{IsCurrent, load_index-IsCurrent}
use ii_go.Db.Log.Get.{columns, shows, entry_at, msg_at, lookup_with-latest, get_msg-latest}

abbrev pub fresh : Db
fresh = record { name = codes "node"; bundle = none; index = none; idx = no_index }

pub fresh-IsSynced : IsSynced fresh []
unfolding text_of
fresh-IsSynced = record {
  indexable = tt;
  bundle_file = refl;
  size = omega arith;
  index_file = inl refl;
  memory = inl refl;
}

pub sample-IsIndexable : IsIndexable sample
unfolding Dict.get str_eq get_or_empty
sample-IsIndexable = record {
  storable = sample-IsStorable;
  id_line = omega arith;
  to_colon = omega arith;
  from_colon = omega arith;
  repto_column = (omega arith, omega arith);
}

pub sample_fits : length (bundle_text (sample ∷ [])) < 2 ^ 63
unfolding text_of bundle_line Base64.encode
sample_fits = rw raw_text-sample (omega arith)

store_with-IsSynced_example :
    ((store_with no_digest (pos 5) sample false fresh).0
      ≡ ok (
          if is_stored (latest sample.msg_id 0 []) && not false then some already_exists else none))
    × IsSynced
        (store_with no_digest (pos 5) sample false fresh).1
        (if is_stored (latest sample.msg_id 0 []) && not false then [] else [] ++ sample ∷ [])
store_with-IsSynced_example =
    store_with-IsSynced no_digest (pos 5) fresh [] sample false fresh-IsSynced sample-IsIndexable
      sample_fits

abbrev pub stored : Db
stored = (store_with no_digest (pos 5) sample false fresh).1

pub stored-IsSynced : IsSynced stored (sample ∷ [])
stored-IsSynced = unfold latest in store_with-IsSynced_example.1

unlatest : latest sample.msg_id 0 [] ≡ none
unfolding latest
unlatest = refl

get_msg-latest_example :
    (get_msg no_digest sample.msg_id stored).0
    ≡ ok (Option.map msg_at (shows false (latest sample.msg_id 0 (sample ∷ []))))
get_msg-latest_example = get_msg-latest no_digest stored (sample ∷ []) sample.msg_id stored-IsSynced

lookup_with-latest_example :
    (info : Option MsgInfo) × ((lookup_with no_digest sample.msg_id false true stored).0 ≡ ok info)
    × (Option.map columns info
        ≡ Option.map entry_at (shows false (latest sample.msg_id 0 (sample ∷ []))))
lookup_with-latest_example =
    lookup_with-latest no_digest stored (sample ∷ []) sample.msg_id false stored-IsSynced

load_index-IsCurrent_example :
    ((load_index no_digest stored).0 ≡ ok none)
    × IsCurrent (load_index no_digest stored).1 (sample ∷ [])
load_index-IsCurrent_example = load_index-IsCurrent no_digest stored (sample ∷ []) stored-IsSynced

abbrev all_of_area : Query
all_of_area = record {
  echo = codes "std.test";
  repto = [];
  from = [];
  to = [];
  start = pos 0;
  lim = pos 0;
  skip = pos 0;
  count = pos 0;
  blacklisted = false;
  no_access = false;
  user = [];
  invert = false;
}

select_ids-IsSynced_example :
    (found : List Bytes) × ((select_ids no_digest none all_of_area stored).0 ≡ ok found)
    × (IsSynced (select_ids no_digest none all_of_area stored).1 (sample ∷ [])
        × Selects no_digest none (sample ∷ []) all_of_area found)
select_ids-IsSynced_example =
    select_ids-IsSynced no_digest none stored (sample ∷ []) all_of_area stored-IsSynced

-- A message of an area: its id, the id that it replies to, its number and its topic.
abbrev post : Bytes → Bytes → ℕ → Bytes → MsgInfo
post id repto num topic = record {
  id = id;
  echo = codes "std.test";
  to = [];
  off = pos 0;
  repto = repto;
  from = [];
  topic = topic;
  num = num;
}

abbrev thread : Hash
thread = (codes "a", post (codes "a") [] 0 []) ∷ (codes "b", post (codes "b") (codes "a") 1 []) ∷ []

thread-IsOrderly : IsOrderly 2 thread
unfolding Dict.get str_eq parent_of visible
thread-IsOrderly = record { below = λ id i e. ground arith; descends = λ id i p e f. ground arith }

get_topics-ends_example :
    (t : Topics) × (get_topics 2 (codes "a" ∷ codes "b" ∷ []) thread ≡ some t)
    × Retopics thread t.hash
get_topics-ends_example = get_topics-ends 2 (codes "a" ∷ codes "b" ∷ []) thread thread-IsOrderly

-- Two messages that reply to each other, with the topic that a first call gives them, and a third.
abbrev knot : Hash
knot =
    (codes "a", post (codes "a") (codes "b") 0 (codes "b"))
    ∷ (codes "b", post (codes "b") (codes "a") 1 (codes "b"))
    ∷ (codes "c", post (codes "c") (codes "a") 2 [])
    ∷ []

get_topics-none_example : get_topics 1000 (codes "c" ∷ []) knot ≡ none
unfolding Dict.get str_eq parent_of visible
get_topics-none_example =
    get_topics-none 1000 (codes "c") []
      (record { next = refl; not_own = refl; not_visited = refl; has_topic = refl })
      (record { next = refl; not_own = refl; not_visited = refl; has_topic = refl }) refl refl refl
      (refl, refl, refl)
